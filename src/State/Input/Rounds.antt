-- ===== src/State/Input/Rounds.antt =====
-- A round of `copy_plain` keeps the plaintext prefix inside the ciphertext already consumed, loses
-- no plaintext, leaves the unread ciphertext alone, and makes progress.
use tls.Base.{
  ℕ, ◌+◌, ◌-◌, ◌≤◌, ◌<◌, ◌≡◌, refl, sym, ap, ◌∙◌, inl, inr, min, Bool-cases, Result-cases, true,
  false, ok, List, [], ◌∷◌, ◌∷◌, ◌++◌, ◌==◌, leb, length, take, drop, is_nil, arith, append-nil,
  length-take, length-drop, take-append-drop,
}
use tls.Outside.{Outside}
use tls.Outside.Laws.{ReserveLaws, ReadLaws}
use tls.Staging.{max_plaintext}
use tls.State.Staged.{Staged, copy}
use tls.State.Input.{Input, overwrite, compact, take_plain, copy_round}
use tls.State.Input.Place.{staged_bytes, IsFresh, Inv, Good, Shows, place-Good, copy-ok, copy-err}
use tls.State.Input.Bytes.{length-overwrite, take-overwrite, drop-overwrite}

nonempty : (xs : List ℕ) → is_nil xs ≡ false → 0 < length xs
nonempty [] e = cc
nonempty (x ∷ xs) e = omega arith

min-le : (a b : ℕ) → min a b ≤ a
min-le a b = omega arith

module _ ⦃o : Outside⦄ (reserves : ReserveLaws) (reads : ReadLaws) (base : List ℕ)
    (whole : List ℕ) where
  open o use {Native, check, fill_buf, consume, is_would_block}
  open reads use {delivered}

  -- The room test of the source.
  checked : (a l : ℕ) → check a l ≡ ok tt → a ≤ l
  checked a l e = (reserves.check_iff a l).0 e

  roomy :
      (i : Input) (plain : List ℕ)
      → i.len ≤ i.used
      → check (length plain) (i.used - i.len) ≡ ok tt
      → i.len + length plain ≤ i.used
  roomy i plain h e = omega (arith, checked (length plain) (i.used - i.len) e)

  shifted : Input → ℕ → Input
  shifted input p = record input {
    bytes = overwrite input.bytes 0 (drop p (take input.len input.bytes));
    len = input.len - p;
  }

  -- The first `p` bytes of the prefix have gone to the receive buffer.
  shifted-Inv :
      (n : Native) (input : Input) (s s' : Staged) (p : ℕ)
      → Inv reserves reads base whole n input s
      → p ≤ length (take input.len input.bytes)
      → staged_bytes s ≡ []
      → staged_bytes s' ≡ take p (take input.len input.bytes)
      → IsFresh s'
      → Inv reserves reads base whole n (shifted input p) s'
  unfolding shifted
  shifted-Inv n input s s' p v h nothing moved fresh = record {
    fits = omega (arith, v.fits);
    within = omega (arith, v.within, length-overwrite input.bytes 0 rest inside);
    extent = length-overwrite input.bytes 0 rest inside ∙ v.extent;
    unread =
        drop-overwrite input.bytes 0 rest inside input.used (omega (arith, size, v.fits))
        ∙ v.unread;
    fresh = fresh;
    in_order =
        rw (moved, kept_front)
          (v.in_order ∙ rw (nothing, take-append-drop p (take input.len input.bytes)) refl);
  }
    where
      rest : List ℕ
      rest = drop p (take input.len input.bytes)

      size : length rest ≡ input.len - p
      size = omega (
        arith,
        length-drop p (take input.len input.bytes),
        length-take input.len input.bytes,
        v.fits,
        v.within,
      )

      inside : 0 + length rest ≤ length input.bytes
      inside = omega (arith, size, v.fits, v.within)

      kept_front : take (input.len - p) (overwrite input.bytes 0 rest) ≡ rest
      kept_front =
          ap (λ (k : ℕ). take k (overwrite input.bytes 0 rest)) (omega (arith, size))
          ∙ take-overwrite input.bytes 0 rest inside

  compact-Good :
      (n : Native) (input : Input) (s : Staged) (plain : List ℕ)
      → Inv reserves reads base whole n input s
      → Shows reserves reads base whole n plain
      → 0 < length plain
      → Good reserves reads base whole input s (compact n input s plain)
  unfolding compact shifted
  compact-Good n input s plain v shows pos =
      let prior = take input.len input.bytes in
      let prefix = min (length prior) max_plaintext in
      let inside : leb input.len (length input.bytes) ≡ true = ground (arith, v.fits, v.within) in
      elim (Result-cases (copy s (take prefix prior)).0) [
        | inr (c, e) ↦
            let kept_all = copy-err reserves reads base whole s (take prefix prior) c v.fresh e in
            rw (inside, e, compact)
              (
                record {
                  fits = v.fits;
                  within = v.within;
                  extent = v.extent;
                  unread = v.unread;
                  fresh = kept_all.1;
                  in_order = rw kept_all.0 v.in_order;
                },
                refl,
                λ x. cc,
              )
        | inl (_, e) ↦
            let input' = shifted input prefix in
            let s' = (copy s (take prefix prior)).1 in
            let moved =
              copy-ok reserves reads base whole input input' s (take prefix prior) v.fresh e in
            let v' = shifted-Inv n input s s' prefix v (min-le _ _) moved.0 moved.1 moved.2 in
            elim (Result-cases (check (length plain) (input'.used - input'.len))) [
              | inr (c, f) ↦ rw (inside, e, compact, f) (v', refl, λ x. cc)
              | inl (_, f) ↦
                  rw (inside, e, compact, f)
                    (place-Good reserves reads base whole n input' s' plain input s v' shows pos
                      (roomy input' plain v'.fits f) refl (omega (arith, moved.3, moved.4)))
            ]
      ]

  take_plain-Good :
      (n : Native) (input : Input) (s : Staged) (plain : List ℕ)
      → Inv reserves reads base whole n input s
      → Shows reserves reads base whole n plain
      → 0 < length plain
      → Good reserves reads base whole input s (take_plain n input s plain)
  unfolding take_plain
  take_plain-Good n input s plain v shows pos =
      let inside : leb input.len input.used ≡ true = ground (arith, v.fits) in
      elim (Result-cases (check (length plain) (input.used - input.len))) [
        | inl (_, f) ↦
            rw (inside, f, take_plain)
              (place-Good reserves reads base whole n input s plain input s v shows pos
                (roomy input plain v.fits f) refl (omega arith))
        | inr (c, f) ↦ elim (Bool-cases (input.len == 0)) [
          | inr some_prefix ↦
              rw (inside, f, some_prefix, take_plain) (compact-Good n input s plain v shows pos)
          | inl empty ↦ elim (Result-cases (copy s plain).0) [
            | inr (x, e) ↦
                let kept_all = copy-err reserves reads base whole s plain x v.fresh e in
                rw (inside, f, empty, e, take_plain)
                  (
                    record {
                      fits = v.fits;
                      within = v.within;
                      extent = v.extent;
                      unread = v.unread;
                      fresh = kept_all.1;
                      in_order = rw kept_all.0 v.in_order;
                    },
                    refl,
                    λ y. cc,
                  )
            | inl (_, e) ↦
                let moved = copy-ok reserves reads base whole input input s plain v.fresh e in
                rw (inside, f, empty, e, take_plain)
                  (
                    record {
                      fits = v.fits;
                      within = v.within;
                      extent = v.extent;
                      unread = v.unread;
                      fresh = moved.2;
                      in_order =
                          let no_prefix : input.len ≡ 0 = ground arith in
                          let none_yet : take input.len input.bytes ≡ [] = rw no_prefix refl in
                          rw (shows, v.in_order, moved.0, moved.1, none_yet) (simp append-nil);
                    },
                    refl,
                    λ _. omega (arith, moved.3, moved.4),
                  )
          ]
        ]
      ]

  pub copy_round-Good :
      (n : Native) (input : Input) (s : Staged)
      → Inv reserves reads base whole n input s
      → Good reserves reads base whole input s (copy_round n input s)
  unfolding copy_round
  copy_round-Good n input s v = elim (Result-cases (fill_buf n).0) [
    | inr (c, e) ↦ elim (Bool-cases (is_would_block c)) [
      | inl blocked ↦ rw (e, blocked, copy_round) (v', refl, λ x. cc)
      | inr broken ↦ rw (e, broken, copy_round) (v', refl, λ x. cc)
    ]
    | inl (plain, e) ↦ elim (Bool-cases (is_nil plain)) [
      | inl done ↦ rw (e, done, copy_round) (v', refl, λ x. cc)
      | inr more ↦
          rw (e, more, copy_round)
            (take_plain-Good (fill_buf n).1 input s plain v' (shows plain e) (nonempty plain more))
    ]
  ]
    where
      v' : Inv reserves reads base whole (fill_buf n).1 input s
      v' = record {
        fits = v.fits;
        within = v.within;
        extent = v.extent;
        unread = v.unread;
        fresh = v.fresh;
        in_order = reads.fill_buf-delivered n ∙ v.in_order;
      }

      shows :
          (plain : List ℕ)
          → (fill_buf n).0 ≡ ok plain
          → Shows reserves reads base whole (fill_buf n).1 plain
      shows plain e =
          reads.consume-delivered n e ∙ ap (λ xs. xs ++ plain) (sym (reads.fill_buf-delivered n))
