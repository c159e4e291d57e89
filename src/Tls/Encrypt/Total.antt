-- ===== src/Tls/Encrypt/Total.antt =====
-- The encryption loop ends: each round but the last consumes plaintext.
use tls.Base.{
  ℕ, zero, suc, ◌<◌, ◌≢◌, inl, inr, Bool-cases, Result-cases, Option-cases, none, ◌==◌, length,
  arith,
}
use tls.Outside.{Outside}
use tls.Outside.Laws.{PlainLaws}
use tls.Outside.Progress.{Progress, PlanLaws}
use tls.Outside.Vectored.{Vectored, VectoredLaws}
use tls.Tls.{Connection, drain}
use tls.Tls.Encrypt.{Attempts, goes_on, seal_loop, one, encrypt_loop}
use tls.Tls.Encrypt.Accepts.{Shrinks, one-Shrinks}
use tls.Tls.Encrypt.Vectored.{many}
use tls.Tls.Encrypt.Vectored.Gathered.{many-Shrinks}

module _ ⦃o : Outside⦄ (a : Attempts) (shrinks : Shrinks a) where
  open o use {Cursor}
  open a use {Left, left, attempt}

  seal_loop-total :
      (fuel : ℕ) (conn : Connection) (out : Cursor) (plain : Left)
      → length (left plain) < fuel
      → seal_loop a fuel conn out plain ≢ none
  unfolding seal_loop
  seal_loop-total zero conn out plain h = absurd (omega arith)
  seal_loop-total (suc fuel) conn out plain h = elim (Bool-cases (goes_on a conn out plain)) [
    | inr stop ↦ rw (stop, seal_loop) (λ x. cc)
    | inl go ↦ elim (Result-cases (attempt conn.native plain).0) [
      | inr (c, e) ↦ rw (go, e, seal_loop) (λ x. cc)
      | inl (k, e) ↦
          let plain' = (attempt conn.native plain).2 in
          let conn' : Connection = record conn { native = (attempt conn.native plain).1 } in
          elim (Option-cases (drain conn' out).0) [
            | inr (c, f) ↦ rw (go, e, f, seal_loop) (λ x. cc)
            | inl f ↦ elim (Bool-cases (k == 0)) [
              | inl last ↦ rw (go, e, f, last, seal_loop) (λ x. cc)
              | inr more ↦
                  rw (go, e, f, more, seal_loop)
                    (seal_loop-total fuel (drain conn' out).1 (drain conn' out).2 plain'
                      (omega (arith, shrinks conn.native plain k e more)))
            ]
          ]
    ]
  ]

module _ ⦃o : Outside⦄ (plains : PlainLaws) where
  -- With more fuel than bytes left to send, the loop ends by its own exits.
  pub encrypt_loop-total :
      ⦃d : Progress⦄ (plans : PlanLaws) (fuel : ℕ) (conn : Connection) (out : o.Cursor)
      (plain : d.Plain)
      → length (d.rest plain) < fuel
      → encrypt_loop fuel conn out plain ≢ none
  unfolding encrypt_loop
  encrypt_loop-total plans fuel conn out plain h =
      seal_loop-total one (one-Shrinks plains plans) fuel conn out plain h

  -- The same of the loop over several buffers.
  pub encrypt_many_loop-total :
      ⦃v : Vectored⦄ (laws : VectoredLaws) (fuel : ℕ) (conn : Connection) (out : o.Cursor)
      (plain : v.Many)
      → length (v.many_rest plain) < fuel
      → seal_loop many fuel conn out plain ≢ none
  encrypt_many_loop-total laws fuel conn out plain h =
      seal_loop-total many (many-Shrinks plains laws) fuel conn out plain h
