-- ===== src/Tls/Senders/Fed.antt =====
-- The send path leaves the ciphertext that rustls has taken as it is.
use tls.Base.{ℕ, ◌≡◌, ap, ◌∙◌, inl, inr, Result-cases, List, [], ◌++◌, take-nil, append-nil}
use tls.Outside.{Outside}
use tls.Outside.Laws.{FeedLaws}
use tls.Outside.Progress.{Progress}
use tls.Outside.Vectored.{Vectored}
use tls.State.{write_all_vectored}
use tls.State.Moved.{drain-keeps}
use tls.Tls.{Connection}
use tls.Tls.Encrypt.{Attempts, seal, one, write_part}
use tls.Tls.Encrypt.Vectored.{many, write_parts}
use tls.Tls.Encrypt.Rule.{seal-Kept}
use tls.Tls.Senders.Rule.{SendKeeps}

module _ ⦃o : Outside⦄ (feeds : FeedLaws) where
  open o use {Reserve, chunk_slice, freeze}
  open feeds use {received}

  -- Sending leaves the ciphertext that rustls has taken as it is.
  pub record SendFeedLaws : Type 0 where
    pub write_tls-received :
        (n : o.Native) (s : o.Spare) → received (o.write_tls write_all_vectored n s).1 ≡ received n
    pub write_vectored-received :
        (n : o.Native) (bs : List (List ℕ)) → received (o.write_vectored n bs).1 ≡ received n
    pub send_close_notify-received : (n : o.Native) → received (o.send_close_notify n) ≡ received n

  module _ (sending : SendFeedLaws) (bytes : List ℕ) where
    pub receives-SendKeeps : SendKeeps (λ conn. received conn.native ≡ bytes)
    receives-SendKeeps = record {
      on_drain = λ conn out h. drain-keeps received sending.write_tls-received conn.native out ∙ h;
      on_fail = λ conn h. h;
      on_notify = λ conn h. sending.send_close_notify-received conn.native ∙ h;
    }

    pub seal-receives :
        (a : Attempts)
        → ((n : o.Native) (p : a.Left) → received (a.attempt n p).1 ≡ received n)
        → (conn : Connection) (out : o.Cursor) (plain : a.Left) → received conn.native ≡ bytes
        → received (seal a conn out plain).1.native ≡ bytes
    seal-receives a quiet conn out plain h =
        seal-Kept a (λ n c p. received n ≡ bytes)
          (record {
            on_attempt = λ n c p e. quiet n p ∙ e;
            on_drain = λ n c p e. drain-keeps received sending.write_tls-received n c ∙ e;
          })
          conn out plain h

    pub one-receives :
        ⦃d : Progress⦄ (n : o.Native) (p : one.Left) → received (one.attempt n p).1 ≡ received n
    unfolding write_part
    one-receives n p = feeds.write-received n _

    pub many-receives :
        ⦃v : Vectored⦄ (n : o.Native) (p : many.Left) → received (many.attempt n p).1 ≡ received n
    unfolding write_parts
    many-receives n p = sending.write_vectored-received n _

  -- What the end of the peer gives to rustls is empty.
  pub none_fed : (n : o.Native) → received (o.read_tls n []).1 ≡ received n
  none_fed n = elim (Result-cases (o.read_tls n []).0) [
    | inr (c, e) ↦ feeds.read_tls-err n [] e
    | inl (k, e) ↦ feeds.read_tls-ok n [] e ∙ ap (◌++◌ (received n)) (take-nil k) ∙ append-nil _
  ]
