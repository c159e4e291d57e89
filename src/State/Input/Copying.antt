-- ===== src/State/Input/Copying.antt =====
-- A rule for `copy_plain`: what showing and consuming plaintext keep of rustls, the rounds keep.
use tls.Base.{
  ℕ, zero, suc, ◌+◌, ◌-◌, min, inl, inr, Bool-cases, Result-cases, Option-cases, Option, none, some,
  Result, List, ◌==◌, leb, length, drop, take, is_nil, subst,
}
use tls.Outside.{Outside}
use tls.Error.{Error}
use tls.Staging.{max_plaintext}
use tls.State.Staged.{Staged, copy}
use tls.State.Input.{Input, Round, overwrite, place, compact, take_plain, copy_round, copy_loop}

module _ ⦃o : Outside⦄ where
  abbrev RoundKept : (o.Native → Type 0) → Option Round → Type 0
  RoundKept Q none = Unit
  RoundKept Q (some (_, n, i, s)) = Q n

  abbrev pub CopyKept :
      (o.Native → Type 0) → Option (Result Error (Unit {0}) × o.Native × Input × Staged) → Type 0
  CopyKept Q none = Unit
  CopyKept Q (some (r, n, i, s)) = Q n

module _ ⦃o : Outside⦄ (Q : o.Native → Type 0)
    (on_fill_buf : (n : o.Native) → Q n → Q (o.fill_buf n).1)
    (on_consume : (n : o.Native) (k : ℕ) → Q n → Q (o.consume n k)) where
  open o use {Native, check, fill_buf, is_would_block, consume}

  place-Kept :
      (n : Native) (i : Input) (s : Staged) (plain : List ℕ) → Q n → RoundKept Q (place n i s plain)
  unfolding place
  place-Kept n i s plain h = elim (Bool-cases (leb (i.len + length plain) (length i.bytes))) [
    | inr e ↦ rw (e, place) tt
    | inl e ↦ rw (e, place) (on_consume n (length plain) h)
  ]

  compact-Kept :
      (n : Native) (i : Input) (s : Staged) (plain : List ℕ)
      → Q n
      → RoundKept Q (compact n i s plain)
  unfolding compact
  compact-Kept n i s plain h = elim (Bool-cases (leb i.len (length i.bytes))) [
    | inr e ↦ rw (e, compact) tt
    | inl e ↦
        let prior = take i.len i.bytes in
        let prefix = min (length prior) max_plaintext in
        let (r, s') = copy s (take prefix prior) in
        let i' : Input = record i {
          bytes = overwrite i.bytes 0 (drop prefix prior);
          len = i.len - prefix;
        } in
        elim (Result-cases r) [
          | inr (c, f) ↦ rw (e, f, compact) h
          | inl (_, f) ↦ elim (Result-cases (check (length plain) (i'.used - i'.len))) [
            | inr (c, g) ↦ rw (e, f, g, compact) h
            | inl (_, g) ↦ rw (e, f, g, compact) (place-Kept n i' s' plain h)
          ]
        ]
  ]

  take_plain-Kept :
      (n : Native) (i : Input) (s : Staged) (plain : List ℕ)
      → Q n
      → RoundKept Q (take_plain n i s plain)
  unfolding take_plain
  take_plain-Kept n i s plain h = elim (Bool-cases (leb i.len i.used)) [
    | inr e ↦ rw (e, take_plain) tt
    | inl e ↦ elim (Result-cases (check (length plain) (i.used - i.len))) [
      | inl (_, f) ↦ rw (e, f, take_plain) (place-Kept n i s plain h)
      | inr (_, f) ↦ elim (Bool-cases (i.len == 0)) [
        | inr g ↦ rw (e, f, g, take_plain) (compact-Kept n i s plain h)
        | inl g ↦ elim (Result-cases (copy s plain).0) [
          | inr (_, x) ↦ rw (e, f, g, x, take_plain) h
          | inl (_, x) ↦ rw (e, f, g, x, take_plain) (on_consume n (length plain) h)
        ]
      ]
    ]
  ]

  copy_round-Kept : (n : Native) (i : Input) (s : Staged) → Q n → RoundKept Q (copy_round n i s)
  unfolding copy_round
  copy_round-Kept n i s h = elim (Result-cases (fill_buf n).0) [
    | inr (c, e) ↦ elim (Bool-cases (is_would_block c)) [
      | inl f ↦ rw (e, f, copy_round) (on_fill_buf n h)
      | inr f ↦ rw (e, f, copy_round) (on_fill_buf n h)
    ]
    | inl (plain, e) ↦ elim (Bool-cases (is_nil plain)) [
      | inl f ↦ rw (e, f, copy_round) (on_fill_buf n h)
      | inr f ↦ rw (e, f, copy_round) (take_plain-Kept (fill_buf n).1 i s plain (on_fill_buf n h))
    ]
  ]

  pub copy_loop-Kept :
      (fuel : ℕ) (n : Native) (i : Input) (s : Staged) → Q n → CopyKept Q (copy_loop fuel n i s)
  unfolding copy_loop
  copy_loop-Kept zero n i s h = tt
  copy_loop-Kept (suc fuel) n i s h =
      let kept = copy_round-Kept n i s h in
      elim (Option-cases (copy_round n i s)) [
        | inl e ↦ rw (e, copy_loop) tt
        | inr ((done, n', i', s'), e) ↦
            let h' : Q n' = subst (RoundKept Q) e kept in
            elim (Option-cases done) [
              | inr (r, f) ↦ rw (e, f, copy_loop) h'
              | inl f ↦ rw (e, f, copy_loop) (copy_loop-Kept fuel n' i' s' h')
            ]
      ]
