-- ===== src/Tls/Encrypt/Silent.antt =====
-- The encryption loop leaves the plaintext that the reader has delivered as it is.
use tls.Base.{ℕ, ◌≡◌, refl, ◌∙◌, List}
use tls.Outside.{Outside}
use tls.Outside.Laws.{ReadLaws}
use tls.Outside.Progress.{Progress}
use tls.State.{write_all_vectored}
use tls.State.Moved.{drain-keeps}
use tls.Tls.{Connection}
use tls.Tls.Encrypt.{Attempts, write_part, one, seal}
use tls.Tls.Encrypt.Rule.{seal-Kept}

module _ ⦃o : Outside⦄ (reads : ReadLaws) where
  open o use {Cursor, Spare, Native}
  open reads use {delivered}

  -- Sending consumes no plaintext of the reader.
  pub record SendLaws : Type 0 where
    pub write_tls-delivered :
        (n : Native) (s : Spare) → delivered (o.write_tls write_all_vectored n s).1 ≡ delivered n
    pub write_vectored-delivered :
        (n : Native) (bs : List (List ℕ)) → delivered (o.write_vectored n bs).1 ≡ delivered n
    pub send_close_notify-delivered : (n : Native) → delivered (o.send_close_notify n) ≡ delivered n

  -- A round that consumes no plaintext of the reader.
  abbrev pub Silent : Attempts → Type 0
  Silent a = (n : Native) (p : a.Left) → delivered (a.attempt n p).1 ≡ delivered n

  pub seal-delivered :
      (sends : SendLaws) (a : Attempts) (silent : Silent a) (conn : Connection) (out : Cursor)
      (plain : a.Left)
      → let (_, conn', _, _) = seal a conn out plain in
        delivered conn'.native ≡ delivered conn.native
  seal-delivered sends a silent conn out plain =
      seal-Kept a (λ n c p. delivered n ≡ delivered conn.native)
        (record {
          on_attempt = λ n c p h. silent n p ∙ h;
          on_drain = λ n c p h. drain-keeps delivered sends.write_tls-delivered n c ∙ h;
        })
        conn out plain refl

module _ ⦃o : Outside⦄ ⦃d : Progress⦄ (reads : ReadLaws) where
  pub one-Silent : Silent reads one
  unfolding write_part
  one-Silent n p = reads.write-delivered n _
