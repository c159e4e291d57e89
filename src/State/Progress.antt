-- ===== src/State/Progress.antt =====
-- The drain of src/state/mod.rs succeeds where rustls moves records whenever it is asked.
use tls.Base.{
  ℕ, zero, suc, ◌≡◌, ◌⊎◌, refl, inl, inr, Bool-cases, Result-cases, Bool, true, false, Option, none,
  some, Result, ok, err, ◌==◌, ap, subst, ◌∙◌, ◌+◌, min, flatten, take, length-append, length-take,
  List, [], length, ◌<◌, arith,
}
use tls.Outside.{Outside}
use tls.Outside.Laws.{CursorLaws, WriteLaws}
use tls.Error.{Error}
use tls.State.{write_all_vectored, drain_loop, settled, drain}
use tls.State.Drain.{Ends, drain_loop-Ends}
use tls.State.Output.{write_all_vectored-Writes}
use tls.State.Moved.{Stops, drain-Moved}

pub nil_of : (xs : List ℕ) → length xs ≡ 0 → xs ≡ []
nil_of xs e = ground arith

module _ ⦃o : Outside⦄ where
  open o use {Cursor, Spare, Native, spare_len, spare, remaining, wants_write, write_tls}

  -- rustls that has records queued moves a byte at least to a writer that has room, and a slot of
  -- the pool has room.
  pub record MovingLaws : Type 0 where
    pub write_tls-moves :
        (n : Native) (s : Spare)
        → wants_write n ≡ true
        → (remaining s == 0) ≡ false
        → (k : ℕ) × ((write_tls write_all_vectored n s).0 ≡ ok (suc k))
    pub view-spare_len : (p q : o.Pool) (c : Cursor) → o.view p ≡ some (c, q) → 0 < spare_len c

  abbrev is_err : Result Error (Unit {0}) → Bool
  is_err (ok u) = false
  is_err (err cause) = true

  abbrev loop_fails : Option (Result Error (Unit {0}) × Native × Spare) → Bool
  loop_fails none = false
  loop_fails (some (r, n, s)) = is_err r

  drain_loop-moves :
      (moving : MovingLaws) (fuel : ℕ) (n : Native) (s : Spare)
      → wants_write n ≡ true
      → loop_fails (drain_loop fuel n s) ≡ false
  unfolding drain_loop
  drain_loop-moves moving zero n s more = refl
  drain_loop-moves moving (suc fuel) n s more = elim (Bool-cases (remaining s == 0)) [
    | inl full ↦ rw (full, drain_loop) refl
    | inr room ↦
        let (k, e) = moving.write_tls-moves n s more room in
        let some_byte : (suc k == 0) ≡ false = ground arith in
        let (r, n', s') = write_tls write_all_vectored n s in
        elim (Bool-cases (wants_write n')) [
          | inr done ↦ rw (room, e, some_byte, done, drain_loop) refl
          | inl again ↦
              rw (room, e, some_byte, again, drain_loop) (drain_loop-moves moving fuel n' s' again)
        ]
  ]

module _ ⦃o : Outside⦄ (cursors : CursorLaws) (writes : WriteLaws) (moving : MovingLaws) where
  open o use {
    Cursor, Spare, Native, as_slice, spare_len, spare, remaining, commit, wants_write, write_tls,
  }
  open writes use {queued, offer}

  -- The bytes of a buffer that is written, with the room behind them.
  abbrev size : Spare → ℕ
  size s = length (as_slice (commit s)) + remaining s

  abbrev Sized : ℕ → Option (Result Error (Unit {0}) × Native × Spare) → Type 0
  Sized n none = Unit
  Sized n (some (r, c, s)) = size s ≡ n

  write_tls-size : (n : Native) (s : Spare) → size (write_tls write_all_vectored n s).2 ≡ size s
  write_tls-size n s = elim (Result-cases (write_tls write_all_vectored n s).0) [
    | inr (e, f) ↦ ap size (writes.write_tls-err write_all_vectored n s f).0
    | inl (k, f) ↦
        let w = write_all_vectored-Writes cursors s (offer n) in
        let bytes = flatten (offer n) in
        let out = (write_all_vectored s (offer n)).1 in
        let grown : length (as_slice (commit out))
            ≡ length (as_slice (commit s)) + min (remaining s) (length bytes) =
          ap length w.bytes
          ∙ length-append (as_slice (commit s)) (take (remaining s) bytes)
          ∙ ap (λ m. length (as_slice (commit s)) + m) (length-take (remaining s) bytes) in
        ap size (writes.write_tls-ok write_all_vectored n s f).1 ∙ omega (arith, grown, w.left)
  ]

  drain_loop-Sized : (fuel : ℕ) (n : Native) (s : Spare) → Sized (size s) (drain_loop fuel n s)
  unfolding drain_loop
  drain_loop-Sized zero n s = tt
  drain_loop-Sized (suc fuel) n s =
      let (r, n', s') = write_tls write_all_vectored n s in
      let later =
        subst (λ m. Sized m (drain_loop fuel n' s')) (write_tls-size n s)
          (drain_loop-Sized fuel n' s') in
      elim (Bool-cases (remaining s == 0)) [
        | inl full ↦ rw (full, drain_loop) refl
        | inr room ↦ elim (Result-cases r) [
          | inr (c, e) ↦ rw (room, e, drain_loop) (write_tls-size n s)
          | inl (k, e) ↦ elim (Bool-cases (k == 0)) [
            | inl nothing ↦ rw (room, e, nothing, drain_loop) (write_tls-size n s)
            | inr some_bytes ↦ elim (Bool-cases (wants_write n')) [
              | inr done ↦ rw (room, e, some_bytes, done, drain_loop) (write_tls-size n s)
              | inl more ↦ rw (room, e, some_bytes, more, drain_loop) later
            ]
          ]
        ]
      ]

  -- A drain keeps the bytes of the buffer with its room.
  settled-Sized :
      (n : Native) (s : Spare) (r : Option (Result Error (Unit {0}) × Native × Spare))
      → Sized (size s) r
      → let c = (settled n s r).2 in length (as_slice c) + spare_len c ≡ size s
  unfolding settled
  settled-Sized n s none v = ap (λ m. length (as_slice (commit s)) + m) (cursors.spare_len-commit s)
  settled-Sized n s (some (r, n', s')) v =
      ap (λ m. length (as_slice (commit s')) + m) (cursors.spare_len-commit s') ∙ v

  drain-size :
      (n : Native) (c : Cursor)
      → let c' = (drain n c).2 in
        length (as_slice c') + spare_len c' ≡ length (as_slice c) + spare_len c
  unfolding drain
  drain-size n c = elim (Bool-cases (wants_write n)) [
    | inr nothing ↦ rw (nothing, drain) refl
    | inl queue ↦
        rw (queue, drain)
          (settled-Sized n (spare c) (drain_loop (suc (spare_len c)) n (spare c))
              (drain_loop-Sized (suc (spare_len c)) n (spare c))
            ∙ omega (arith, ap length (cursors.as_slice-spare c), cursors.remaining-spare c))
  ]

  settled-moves :
      (n : Native) (s : Spare) (r : Option (Result Error (Unit {0}) × Native × Spare))
      → Ends writes n s r
      → loop_fails r ≡ false
      → is_err (settled n s r).0 ≡ false
  unfolding settled
  settled-moves n s none v h = absurd v
  settled-moves n s (some (r, n', s')) v h = h

  drain-moves : (n : Native) (c : Cursor) → is_err (drain n c).0 ≡ false
  unfolding drain
  drain-moves n c = elim (Bool-cases (wants_write n)) [
    | inr nothing ↦ rw (nothing, drain) refl
    | inl queue ↦
        let start = suc (spare_len c) in
        rw (queue, drain)
          (settled-moves n (spare c) _
            (drain_loop-Ends cursors writes start n (spare c)
              (omega (arith, cursors.remaining-spare c)))
            (drain_loop-moves moving start n (spare c) queue))
  ]

  supplied :
      (r : Result Error (Unit {0})) (n : Native) (c : Cursor)
      → Stops writes r n c
      → is_err r ≡ false
      → 0 < length (as_slice c) + spare_len c
      → (queued n ≡ []) ⊎ (0 < length (as_slice c))
  supplied (err cause) n c h e big = absurd (ground (arith, e))
  supplied (ok u) n c (inr none_left) e big = inl none_left
  supplied (ok u) n c (inl full) e big = inr (omega arith)

  -- After a drain into a buffer that has bytes or room, rustls has nothing queued or the buffer has
  -- bytes for the socket.
  pub drain-supplies :
      (n : Native) (c : Cursor)
      → 0 < length (as_slice c) + spare_len c
      → (queued (drain n c).1 ≡ []) ⊎ (0 < length (as_slice (drain n c).2))
  drain-supplies n c big =
      supplied (drain n c).0 (drain n c).1 (drain n c).2 (drain-Moved cursors writes n c).stops
        (drain-moves n c) (omega (arith, drain-size n c))
