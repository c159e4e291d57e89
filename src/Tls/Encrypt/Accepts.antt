-- ===== src/Tls/Encrypt/Accepts.antt =====
-- What one round of encryption does with the plaintext, for one buffer and for several.
use tls.Base.{
  ℕ, ◌≤◌, ◌<◌, ◌≡◌, refl, sym, ap, ◌∙◌, inl, inr, Bool-cases, Result-cases, false, ok, ◌==◌, List,
  ◌++◌, length, take, drop, arith, append_assoc, take-append-drop, take-take, drop-length-take,
  length-drop, length-take,
}
use tls.Outside.{Outside}
use tls.Outside.Laws.{PlainLaws, WriteLaws}
use tls.Outside.Progress.{Progress, PlanLaws}
use tls.Staging.{max_plaintext}
use tls.Tls.Encrypt.{Attempts, commit_written, write_part, one}

module _ ⦃o : Outside⦄ (a : Attempts) where
  open o use {Native}
  open a use {Left, left, attempt}

  -- What a round consumes is what rustls accepts.
  abbrev pub Conserves : PlainLaws → Type 0
  Conserves plains =
      (n : Native) (p : Left)
      → plains.accepted (attempt n p).1 ++ left (attempt n p).2 ≡ plains.accepted n ++ left p

  -- A round that writes some bytes consumes some.
  abbrev pub Shrinks : Type 0
  Shrinks =
      (n : Native) (p : Left) (k : ℕ)
      → (attempt n p).0 ≡ ok k
      → (k == 0) ≡ false
      → length (left (attempt n p).2) < length (left p)

  -- A round only appends to the records that rustls has queued.
  abbrev pub Queues : WriteLaws → Type 0
  Queues writes =
      (n : Native) (p : Left)
      → (t : List ℕ) × (writes.queued (attempt n p).1 ≡ writes.queued n ++ t)

pub drop-lt :
    (m k : ℕ) (xs : List ℕ)
    → k ≤ length (take m xs)
    → (k == 0) ≡ false
    → length (drop k xs) < length xs
drop-lt m k xs h pos = ground (arith, length-drop k xs, length-take m xs)

-- Bytes split at `k` within the first `m`: the part that is accepted, then the rest.
pub split-take :
    (base : List ℕ) (k m : ℕ) (xs : List ℕ)
    → k ≤ length (take m xs)
    → (base ++ take k (take m xs)) ++ drop k xs ≡ base ++ xs
split-take base k m xs h =
    rw (take-take k m xs h) (append_assoc base _ _ ∙ ap (◌++◌ base) (take-append-drop k xs))

module _ ⦃d : Progress⦄ (plans : PlanLaws) where
  open d use {Plain, rest, take_part, part_slice, amount, prefix}

  -- What is left after rustls has taken `n` bytes of a part.
  pub rest-commit_written :
      (p : Plain) (m n : ℕ)
      → n ≤ length (take m (rest p))
      → rest (commit_written (take_part p m) n) ≡ drop n (rest p)
  unfolding commit_written
  rest-commit_written p m n h = elim (Bool-cases (n == length (part_slice (take_part p m)))) [
    | inl whole ↦
        let same : n ≡ length (take m (rest p)) = ground (arith, plans.part_slice-take p m) in
        rw (whole, commit_written)
          (plans.rest-commit p m ∙ rw same (sym (drop-length-take m (rest p))))
    | inr part ↦
        let used : prefix n (amount (take_part p m)) ≡ n =
          plans.prefix-le _ _ (rw plans.amount-take h) in
        elim (Bool-cases (n == 0)) [
          | inl nothing ↦
              let zero_bytes : n ≡ 0 = ground arith in
              rw (part, used, nothing, commit_written) (plans.rest-give_up p m ∙ rw zero_bytes refl)
          | inr some_bytes ↦
              rw (part, used, some_bytes, commit_written, used)
                (plans.rest-commit _ n ∙ ap (drop n) (plans.rest-give_up p m))
        ]
  ]

module _ ⦃o : Outside⦄ ⦃d : Progress⦄ (plains : PlainLaws) (plans : PlanLaws) where
  open o use {Native, write}
  open d use {Plain, rest, take_part, part_slice}
  open plains use {accepted}

  write_part-ok :
      (n : Native) (p : Plain) {k : ℕ}
      → (write n (part_slice (take_part p max_plaintext))).0 ≡ ok k
      → (k ≤ length (take max_plaintext (rest p)))
        × (accepted (write n (part_slice (take_part p max_plaintext))).1
            ≡ accepted n ++ take k (take max_plaintext (rest p)))
  write_part-ok n p e =
      let law = plains.write-ok n (part_slice (take_part p max_plaintext)) e in
      let same = plans.part_slice-take p max_plaintext in (rw same at law.0, law.1 ∙ rw same refl)

  pub one-Conserves : Conserves one plains
  unfolding write_part
  one-Conserves n p = elim (Result-cases (write n (part_slice (take_part p max_plaintext))).0) [
    | inr (c, e) ↦
        rw (e, write_part, plains.write-err n _ e, plans.rest-give_up p max_plaintext) refl
    | inl (k, e) ↦
        let (bound, taken) = write_part-ok n p e in
        rw (e, write_part, taken, rest-commit_written plans p max_plaintext k bound)
          (split-take (accepted n) k max_plaintext (rest p) bound)
  ]

  pub one-Shrinks : Shrinks one
  unfolding write_part
  one-Shrinks n p k e pos =
      let (bound, taken) = write_part-ok n p e in
      rw (e, write_part, rest-commit_written plans p max_plaintext k bound)
        (drop-lt max_plaintext k (rest p) bound pos)

module _ ⦃o : Outside⦄ ⦃d : Progress⦄ (writes : WriteLaws) where
  pub one-Queues : Queues one writes
  unfolding write_part
  one-Queues n p = writes.write-queued n _
