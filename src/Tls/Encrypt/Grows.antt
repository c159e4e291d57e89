-- ===== src/Tls/Encrypt/Grows.antt =====
-- Encryption only adds to the plaintext that rustls has accepted.
use tls.Base.{ℕ, inl, inr, Result-cases, List, Extends, Extends-refl, Extends-trans, Extends-of_eq}
use tls.Outside.{Outside}
use tls.Outside.Laws.{PlainLaws}
use tls.Outside.Progress.{Progress}
use tls.State.Moved.{drain-keeps}
use tls.Tls.{Connection}
use tls.Tls.Encrypt.{Attempts, write_part, one, seal}
use tls.Tls.Encrypt.Rule.{seal-Kept}

module _ ⦃o : Outside⦄ (plains : PlainLaws) where
  open plains use {accepted}

  -- A round only adds.
  abbrev pub Grows : Attempts → Type 0
  Grows a = (n : o.Native) (p : a.Left) → Extends (accepted n) (accepted (a.attempt n p).1)

  write-Grows : (n : o.Native) (bs : List ℕ) → Extends (accepted n) (accepted (o.write n bs).1)
  write-Grows n bs = elim (Result-cases (o.write n bs).0) [
    | inl (k, e) ↦ (_, (plains.write-ok n bs e).1)
    | inr (c, e) ↦ Extends-of_eq (plains.write-err n bs e)
  ]

  pub one-Grows : ⦃d : Progress⦄ → Grows one
  unfolding write_part
  one-Grows n p = write-Grows n _

  pub seal-Grows :
      (a : Attempts)
      → Grows a
      → (conn : Connection) (out : o.Cursor) (plain : a.Left)
      → Extends (accepted conn.native) (accepted (seal a conn out plain).1.native)
  seal-Grows a grows conn out plain =
      seal-Kept a (λ n c p. Extends (accepted conn.native) (accepted n))
        (record {
          on_attempt = λ n c p h. Extends-trans _ _ _ h (grows n p);
          on_drain = λ n c p h.
              Extends-trans _ _ _ h
                (Extends-of_eq (drain-keeps accepted (λ m s. plains.write_tls-accepted _ m s) n c));
        })
        conn out plain (Extends-refl _)
