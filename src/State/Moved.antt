-- ===== src/State/Moved.antt =====
-- `drain` over a send buffer: what the loop of Drain guarantees, for the caller.
use tls.Base.{
  ℕ, zero, suc, ◌<◌, ◌≡◌, refl, ◌∙◌, ◌⊎◌, inl, inr, Bool-cases, Result-cases, Option, none, some,
  Result, ok, err, ◌==◌, [], ◌++◌, arith,
}
use tls.Outside.{Outside}
use tls.Outside.Laws.{CursorLaws, WriteLaws}
use tls.Error.{
  Error, tls_error, io, allocation, staged, retained, buffer_unavailable, invalid_buffer_progress,
  consume,
}
use tls.State.{write_all_vectored, drain_loop, settled, drain}
use tls.State.Drain.{Settles, Ends, drain_loop-Ends}

module _ ⦃o : Outside⦄ (writes : WriteLaws) where
  open o use {Cursor, Native, as_slice, spare_len}
  open writes use {queued}

  -- Settles of Drain, for the buffer itself.
  abbrev pub Stops : Result Error (Unit {0}) → Native → Cursor → Type 0
  Stops (ok _) n c = (spare_len c ≡ 0) ⊎ (queued n ≡ [])
  Stops (err invalid_buffer_progress) n c = 0 < spare_len c
  Stops (err _) n c = Unit

  pub record Moved (n : Native) (c : Cursor) (r : Result Error (Unit {0})) (n' : Native)
      (c' : Cursor) : Type 0 where
    pub conserved : as_slice c' ++ queued n' ≡ as_slice c ++ queued n
    pub stops : Stops r n' c'

module _ ⦃o : Outside⦄ (cursors : CursorLaws) (writes : WriteLaws) where
  open o use {Cursor, Spare, Native, as_slice, spare_len, spare, remaining, commit, wants_write}

  Stops-commit :
      (r : Result Error (Unit {0})) (n : Native) (s : Spare)
      → Settles writes r n s
      → Stops writes r n (commit s)
  Stops-commit (ok _) n s h = rw cursors.spare_len-commit h
  Stops-commit (err invalid_buffer_progress) n s h = rw cursors.spare_len-commit h
  Stops-commit (err (tls_error _)) n s h = tt
  Stops-commit (err (io _)) n s h = tt
  Stops-commit (err (allocation _)) n s h = tt
  Stops-commit (err (staged _)) n s h = tt
  Stops-commit (err (retained _)) n s h = tt
  Stops-commit (err buffer_unavailable) n s h = tt
  Stops-commit (err (consume _ _)) n s h = tt

  settled-Moved :
      (n : Native) (c : Cursor) (r : Option (Result Error (Unit {0}) × Native × Spare))
      → Ends writes n (spare c) r
      → let (x, n', c') = settled n (spare c) r in Moved writes n c x n' c'
  unfolding settled
  settled-Moved n c none v = absurd v
  settled-Moved n c (some (r, n', s')) v = record {
    conserved = rw (← cursors.as_slice-spare c) v.conserved;
    stops = Stops-commit r n' s' v.settles;
  }

  -- No record is lost or reordered between rustls and the buffer. Success means that the buffer is
  -- full or that rustls has nothing queued; a refusal of progress, that the buffer had room.
  pub drain-Moved :
      (n : Native) (c : Cursor) → let (r, n', c') = drain n c in Moved writes n c r n' c'
  unfolding drain
  drain-Moved n c = elim (Bool-cases (wants_write n)) [
    | inr nothing ↦
        rw (nothing, drain)
          (record { conserved = refl; stops = inr ((writes.wants_write_iff n).0 nothing) })
    | inl queue ↦
        rw (queue, drain)
          (settled-Moved n c _ (
            drain_loop-Ends cursors writes (suc (spare_len c)) n (spare c)
              (omega (arith, cursors.remaining-spare c))))
  ]

-- Whatever each call of write_tls keeps of the connection, `drain` keeps.
module _ {ℓ} ⦃o : Outside⦄ {A : Type ℓ} (f : o.Native → A)
    (keep : (n : o.Native) (s : o.Spare) → f (o.write_tls write_all_vectored n s).1 ≡ f n) where
  open o use {Cursor, Spare, Native, spare_len, spare, remaining, wants_write, write_tls}

  abbrev Kept : Native → Option (Result Error (Unit {0}) × Native × Spare) → Type ℓ
  Kept n none = Unit
  Kept n (some (r, n', s')) = f n' ≡ f n

  Kept-step :
      (n : Native) (s : Spare) (r : Option (Result Error (Unit {0}) × Native × Spare))
      → Kept (write_tls write_all_vectored n s).1 r
      → Kept n r
  Kept-step n s none v = tt
  Kept-step n s (some (r, n', s')) v = v ∙ keep n s

  drain_loop-Kept : (fuel : ℕ) (n : Native) (s : Spare) → Kept n (drain_loop fuel n s)
  unfolding drain_loop
  drain_loop-Kept zero n s = tt
  drain_loop-Kept (suc fuel) n s = elim (Bool-cases (remaining s == 0)) [
    | inl full ↦ rw (full, drain_loop) refl
    | inr room ↦ elim (Result-cases (write_tls write_all_vectored n s).0) [
      | inr (c, e) ↦ rw (room, e, drain_loop) (keep n s)
      | inl (k, e) ↦ elim (Bool-cases (k == 0)) [
        | inl nothing ↦ rw (room, e, nothing, drain_loop) (keep n s)
        | inr some_bytes ↦ elim (Bool-cases (wants_write (write_tls write_all_vectored n s).1)) [
          | inr done ↦ rw (room, e, some_bytes, done, drain_loop) (keep n s)
          | inl more ↦
              rw (room, e, some_bytes, more, drain_loop)
                (Kept-step n s _ (drain_loop-Kept fuel _ _))
        ]
      ]
    ]
  ]

  settled-Kept :
      (n : Native) (s : Spare) (r : Option (Result Error (Unit {0}) × Native × Spare))
      → Kept n r
      → f (settled n s r).1 ≡ f n
  unfolding settled
  settled-Kept n s none v = refl
  settled-Kept n s (some (r, n', s')) v = v

  pub drain-keeps : (n : Native) (c : Cursor) → f (drain n c).1 ≡ f n
  unfolding drain
  drain-keeps n c = elim (Bool-cases (wants_write n)) [
    | inr nothing ↦ rw (nothing, drain) refl
    | inl queue ↦
        rw (queue, drain) (settled-Kept n _ _ (drain_loop-Kept (suc (spare_len c)) n (spare c)))
  ]
