-- ===== src/State/Drain.antt =====
-- The loop that moves records from rustls to a send buffer ends, loses nothing and keeps order.
use tls.Base.{
  ℕ, zero, suc, ◌+◌, ◌<◌, ◌≡◌, refl, sym, ◌∙◌, min, ◌⊎◌, inl, inr, Bool-cases, Result-cases, Option,
  none, some, Result, ok, err, ◌==◌, [], ◌++◌, length, flatten, arith, append_assoc, take-min,
}
use tls.Outside.{Outside}
use tls.Outside.Laws.{CursorLaws, WriteLaws}
use tls.Error.{Error, invalid_buffer_progress}
use tls.State.{write_all_vectored, drain_loop}
use tls.State.Output.{write_all_vectored-Writes}

module _ ⦃o : Outside⦄ (writes : WriteLaws) where
  open o use {Native, Spare, as_slice, remaining, commit}
  open writes use {queued}

  -- Success means that the buffer is full or the queue empty, and the error about progress, that
  -- there is still room.
  abbrev pub Settles : Result Error (Unit {0}) → Native → Spare → Type 0
  Settles (ok _) n s = (remaining s ≡ 0) ⊎ (queued n ≡ [])
  Settles (err invalid_buffer_progress) n s = 0 < remaining s
  Settles (err _) n s = Unit

  -- What a run from `n` and `s` to `n'` and `s'` with the result `r` has done: no record is lost or
  -- reordered, and the result tells why it ended.
  pub record Drains (n : Native) (s : Spare) (r : Result Error (Unit {0})) (n' : Native)
      (s' : Spare) : Type 0 where
    pub conserved : as_slice (commit s') ++ queued n' ≡ as_slice (commit s) ++ queued n
    pub settles : Settles r n' s'

  abbrev pub Ends : Native → Spare → Option (Result Error (Unit {0}) × Native × Spare) → Type 0
  Ends n s none = ⊥
  Ends n s (some (r, n', s')) = Drains n s r n' s'

module _ ⦃o : Outside⦄ (cursors : CursorLaws) (writes : WriteLaws) where
  open o use {
    Cursor, Spare, Native, as_slice, spare_len, spare, remaining, commit, wants_write, write_tls,
  }
  open writes use {queued, offer}

  abbrev step : Native → Spare → Result o.IoError ℕ × Native × Spare
  step = write_tls write_all_vectored

  took :
      (n : Native) (s : Spare) {k : ℕ}
      → (step n s).0 ≡ ok k
      → k ≡ min (length (flatten (offer n))) (remaining s)
  took n s e =
      sym (writes.write_tls-ok write_all_vectored n s e).0
      ∙ (write_all_vectored-Writes cursors s (offer n)).count
      ∙ omega arith

  step-conserved :
      (n : Native) (s : Spare)
      → as_slice (commit (step n s).2) ++ queued (step n s).1 ≡ as_slice (commit s) ++ queued n
  step-conserved n s = elim (Result-cases (step n s).0) [
    | inl (k, e) ↦
        let law = writes.write_tls-ok write_all_vectored n s e in
        rw
          (
            law.1,
            (write_all_vectored-Writes cursors s (offer n)).bytes,
            law.2,
            took n s e,
            take-min,
          )
          (append_assoc (as_slice (commit s)) _ _)
    | inr (c, e) ↦ let law = writes.write_tls-err write_all_vectored n s e in rw (law.0, law.1) refl
  ]

  step-remaining :
      (n : Native) (s : Spare) {k : ℕ}
      → (step n s).0 ≡ ok k
      → remaining (step n s).2 + k ≡ remaining s
  step-remaining n s e =
      let law = writes.write_tls-ok write_all_vectored n s e in
      rw (law.1, took n s e) (write_all_vectored-Writes cursors s (offer n)).left

  step-Drains :
      (n : Native) (s : Spare) {r : Result Error (Unit {0})} {n' : Native} {s' : Spare}
      → Drains writes (step n s).1 (step n s).2 r n' s'
      → Drains writes n s r n' s'
  step-Drains n s v = record { conserved = v.conserved ∙ step-conserved n s; settles = v.settles }

  Ends-step :
      (n : Native) (s : Spare) (r : Option (Result Error (Unit {0}) × Native × Spare))
      → Ends writes (step n s).1 (step n s).2 r
      → Ends writes n s r
  Ends-step n s none v = v
  Ends-step n s (some (r, n', s')) v = step-Drains n s v

  -- With more fuel than room in the buffer the loop of `drain` ends by its own exits. No record is
  -- lost or reordered, and the result tells why it ended: Settles.
  pub drain_loop-Ends :
      (fuel : ℕ) (n : Native) (s : Spare)
      → remaining s < fuel
      → Ends writes n s (drain_loop fuel n s)
  unfolding drain_loop
  drain_loop-Ends zero n s h = absurd (omega arith)
  drain_loop-Ends (suc fuel) n s h = elim (Bool-cases (remaining s == 0)) [
    | inl full ↦ rw (full, drain_loop) (record { conserved = refl; settles = inl (ground arith) })
    | inr room ↦ elim (Result-cases (step n s).0) [
      | inr (c, e) ↦
          rw (room, e, drain_loop) (record { conserved = step-conserved n s; settles = tt })
      | inl (k, e) ↦ elim (Bool-cases (k == 0)) [
        | inl nothing ↦
            rw (room, e, nothing, drain_loop)
              (record {
                conserved = step-conserved n s;
                settles = ground (arith, step-remaining n s e);
              })
        | inr some_bytes ↦ elim (Bool-cases (wants_write (step n s).1)) [
          | inr done ↦
              rw (room, e, some_bytes, done, drain_loop)
                (record {
                  conserved = step-conserved n s;
                  settles = inr ((writes.wants_write_iff (step n s).1).0 done);
                })
          | inl more ↦
              rw (room, e, some_bytes, more, drain_loop)
                (Ends-step n s _ (
                  drain_loop-Ends fuel (step n s).1 (step n s).2
                    (ground (arith, step-remaining n s e))))
        ]
      ]
    ]
  ]
