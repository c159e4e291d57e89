-- ===== src/Tls/Encrypt/Plaintext.antt =====
-- The plaintext that the encryption loop consumes is the plaintext that rustls accepts.
use tls.Base.{ℕ, ◌≡◌, refl, ◌∙◌, Bool, true, ◌||◌, List, ◌++◌, arith}
use tls.Outside.{Outside}
use tls.Outside.Laws.{PlainLaws}
use tls.Outside.Progress.{Progress, PlanLaws}
use tls.State.Moved.{drain-keeps}
use tls.Tls.{Connection, can_write}
use tls.Tls.Encrypt.{Attempts, seal, one, encrypt}
use tls.Tls.Encrypt.Rule.{Keeps, seal-Kept}
use tls.Tls.Encrypt.Accepts.{Conserves, one-Conserves}

module _ ⦃o : Outside⦄ (a : Attempts) (plains : PlainLaws) where
  open o use {Cursor, Native}
  open a use {Left, left}
  open plains use {accepted}

  -- All plaintext of the send: what rustls has accepted, and what is left.
  abbrev Total : List ℕ → Native → Cursor → Left → Type 0
  Total all n out plain = accepted n ++ left plain ≡ all

  Total-Keeps : Conserves a plains → (all : List ℕ) → Keeps a (Total all)
  Total-Keeps conserves all = record {
    on_attempt = λ n out p h. conserves n p ∙ h;
    on_drain =
        λ n out p h. rw (drain-keeps accepted (λ m s. plains.write_tls-accepted _ m s) n out) h;
  }

  pub seal-plaintext :
      Conserves a plains
      → (conn : Connection) (out : Cursor) (plain : Left)
      → let (_, conn', _, plain') = seal a conn out plain in
        accepted conn'.native ++ left plain' ≡ accepted conn.native ++ left plain
  seal-plaintext conserves conn out plain =
      seal-Kept a (Total (accepted conn.native ++ left plain)) (Total-Keeps conserves _) conn out
        plain refl

module _ ⦃o : Outside⦄ ⦃d : Progress⦄ (plains : PlainLaws) (plans : PlanLaws) where
  open plains use {accepted}

  -- Encryption neither loses, repeats nor reorders plaintext, on every way out of its loop, a
  -- failure included: what rustls has accepted, followed by what the plan has left, is the same
  -- before and after.
  pub encrypt-plaintext :
      (conn : Connection) (out : o.Cursor) (plain : d.Plain)
      → let (_, conn', _, plain') = encrypt conn out plain in
        accepted conn'.native ++ d.rest plain' ≡ accepted conn.native ++ d.rest plain
  unfolding encrypt
  encrypt-plaintext conn out plain =
      seal-plaintext one plains (one-Conserves plains plans) conn out plain

module _ ⦃o : Outside⦄ where
  -- A connection that has failed or is closed on this side.
  abbrev pub is_shut : Connection → Bool
  is_shut conn = conn.failed || conn.local_closed

module _ ⦃o : Outside⦄ (a : Attempts) where
  pub seal-shut :
      (conn : Connection) (out : o.Cursor) (plain : a.Left)
      → is_shut conn ≡ true
      → (seal a conn out plain).3 ≡ plain
  unfolding seal can_write
  seal-shut conn out plain h = ground arith
