-- ===== src/State/Causes.antt =====
-- The drain of src/state/mod.rs has its buffer: its errors are never the lack of one.
use tls.Base.{
  ℕ, zero, suc, ◌≡◌, refl, inl, inr, Bool-cases, Bool, true, false, Option, none, some, Result, ok,
  err, arith,
}
use tls.Outside.{Outside}
use tls.Error.{Error, buffer_unavailable}
use tls.State.{write_all_vectored, drain_loop, settled, drain}

module _ ⦃o : Outside⦄ where
  open o use {Cursor, Spare, Native, spare_len, spare, remaining, wants_write, write_tls}

  -- Whether an error is the lack of a buffer.
  abbrev pub is_lack : Error → Bool
  is_lack buffer_unavailable = true
  is_lack _ = false

  abbrev pub lacks_buffer {ℓ} : {A : Type ℓ} → Result Error A → Bool
  lacks_buffer (err cause) = is_lack cause
  lacks_buffer (ok a) = false

  abbrev loop_lacks : Option (Result Error (Unit {0}) × Native × Spare) → Bool
  loop_lacks none = false
  loop_lacks (some (r, _, _)) = lacks_buffer r

  drain_loop-lacks :
      (fuel : ℕ) (conn : Native) (output : Spare) → loop_lacks (drain_loop fuel conn output) ≡ false
  unfolding drain_loop
  drain_loop-lacks zero conn output = refl
  drain_loop-lacks (suc fuel) conn output =
      let (r, next, output') = write_tls write_all_vectored conn output in
      ground (arith, drain_loop-lacks fuel next output')

  settled-lacks :
      (conn : Native) (output : Spare) (end : Option (Result Error (Unit {0}) × Native × Spare))
      → loop_lacks end ≡ false
      → lacks_buffer (settled conn output end).0 ≡ false
  unfolding settled
  settled-lacks conn output none h = refl
  settled-lacks conn output (some (r, c, s)) h = h

  pub drain-lacks : (conn : Native) (out : Cursor) → lacks_buffer (drain conn out).0 ≡ false
  unfolding drain
  drain-lacks conn out = elim (Bool-cases (wants_write conn)) [
    | inr e ↦ rw (e, drain) refl
    | inl e ↦
        let start = suc (spare_len out) in
        rw (e, drain)
          (settled-lacks conn (spare out) (drain_loop start conn (spare out))
            (drain_loop-lacks start conn (spare out)))
  ]
