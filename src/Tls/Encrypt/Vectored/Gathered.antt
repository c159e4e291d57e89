-- ===== src/Tls/Encrypt/Vectored/Gathered.antt =====
-- One round of encryption over several buffers: the gathered slices are the whole part.
use tls.Base.{
  ℕ, zero, suc, ◌≤◌, ◌≡◌, refl, sym, ap, ◌∙◌, inl, inr, Bool-cases, Option-cases, Result-cases,
  none, ok, ◌==◌, List, ◌++◌, length, take, drop, flatten, arith, append_assoc, append-nil,
  drop-length-take,
}
use tls.Outside.{Outside}
use tls.Outside.Laws.{PlainLaws, WriteLaws}
use tls.Outside.Vectored.{Vectored, VectoredLaws}
use tls.Staging.{max_plaintext}
use tls.Tls.Encrypt.Vectored.{gather, visit, commit_many, write_parts, many}
use tls.Tls.Encrypt.Accepts.{Conserves, Shrinks, Queues, drop-lt, split-take}

module _ ⦃v : Vectored⦄ (laws : VectoredLaws) where
  open v use {descriptors, Many, Parts, many_rest, take_parts, amount, next_chunk, give_up, prefix}
  open laws use {origin, seen, ahead, chunks}

  nothing_ahead :
      (q : Parts) → next_chunk q ≡ none → (origin q ≡ origin q) × (seen q ≡ seen q ++ ahead q)
  nothing_ahead q e = (refl, rw (laws.next_chunk-none q e).0 (sym (append-nil (seen q))))

  -- With a vacant descriptor for each chunk, the slices are what the part has still to yield.
  gather-all :
      (vacant : ℕ) (q : Parts)
      → chunks q ≤ vacant
      → let (slices, q') = gather vacant q in
        (origin q' ≡ origin q) × (seen q' ≡ seen q ++ ahead q) × (flatten slices ≡ ahead q)
  unfolding gather
  gather-all zero q h = elim (Option-cases (next_chunk q)) [
    | inl e ↦ (refl, (nothing_ahead q e).1, sym (laws.next_chunk-none q e).0)
    | inr ((c, q'), e) ↦ absurd (omega (arith, (laws.next_chunk-some q e).3))
  ]
  gather-all (suc vacant) q h = elim (Option-cases (next_chunk q)) [
    | inl e ↦ rw (e, gather) (refl, (nothing_ahead q e).1, sym (laws.next_chunk-none q e).0)
    | inr ((c, q'), e) ↦
        let (same, past, next, count) = laws.next_chunk-some q e in
        let (same', past', all) = gather-all vacant q' (omega arith) in
        rw (e, gather)
          (
            same' ∙ same,
            past' ∙ rw (past, next) (append_assoc (seen q) c (ahead q')),
            rw (all, next) refl,
          )
  ]

  visit-all :
      (fuel : ℕ) (q : Parts)
      → chunks q ≤ fuel
      → (origin (visit fuel q) ≡ origin q) × (seen (visit fuel q) ≡ seen q ++ ahead q)
  unfolding visit
  visit-all zero q h = elim (Option-cases (next_chunk q)) [
    | inl e ↦ nothing_ahead q e
    | inr ((c, q'), e) ↦ absurd (omega (arith, (laws.next_chunk-some q e).3))
  ]
  visit-all (suc fuel) q h = elim (Option-cases (next_chunk q)) [
    | inl e ↦ rw (e, visit) (nothing_ahead q e)
    | inr ((c, q'), e) ↦
        let (same, past, next, count) = laws.next_chunk-some q e in
        let (same', past') = visit-all fuel q' (omega arith) in
        rw (e, visit) (same' ∙ same, past' ∙ rw (past, next) (append_assoc (seen q) c (ahead q')))
  ]

  -- Committing a visited part of `k` bytes leaves what is behind them.
  rest-visited :
      (p : Many) (k : ℕ)
      → many_rest (v.commit_parts (visit descriptors (take_parts p k))) ≡ drop k (many_rest p)
  rest-visited p k =
      let (same, past) = visit-all descriptors (take_parts p k) (laws.chunks-take p k) in
      laws.rest-commit _
      ∙ rw (same, past, laws.origin-take, laws.seen-take, laws.ahead-take)
          (drop-length-take k (many_rest p))

  -- What is left after rustls has taken `n` bytes of a part whose chunks were all yielded.
  rest-commit_many :
      (q : Parts) (m n : ℕ) (xs : List ℕ)
      → origin q ≡ xs
      → seen q ≡ take m xs
      → n ≤ length (take m xs)
      → many_rest (commit_many q (length (take m xs)) n) ≡ drop n xs
  unfolding commit_many
  rest-commit_many q m n xs from past h = elim (Bool-cases (n == length (take m xs))) [
    | inl whole ↦
        let same : n ≡ length (take m xs) = ground arith in
        rw (whole, commit_many) (laws.rest-commit q ∙ rw (from, past, same) refl)
    | inr part ↦
        let used : prefix n (length (take m xs)) ≡ n = laws.prefix-le _ _ h in
        elim (Bool-cases (n == 0)) [
          | inl nothing ↦
              let zero_bytes : n ≡ 0 = ground arith in
              rw (part, used, nothing, commit_many)
                (laws.rest-give_up q ∙ rw (from, zero_bytes) refl)
          | inr some_bytes ↦
              rw (part, used, some_bytes, commit_many, used)
                (rest-visited _ n ∙ ap (drop n) (laws.rest-give_up q ∙ from))
        ]
  ]

module _ ⦃o : Outside⦄ ⦃v : Vectored⦄ (plains : PlainLaws) (laws : VectoredLaws) where
  open o use {Native, write_vectored}
  open v use {descriptors, Many, Parts, many_rest, take_parts, amount}
  open plains use {accepted}

  abbrev gathered : Many → List (List ℕ) × Parts
  gathered p = gather descriptors (take_parts p max_plaintext)

  gathered-whole :
      (p : Many)
      → (laws.origin (gathered p).1 ≡ many_rest p)
        × (laws.seen (gathered p).1 ≡ take max_plaintext (many_rest p))
        × (flatten (gathered p).0 ≡ take max_plaintext (many_rest p))
  gathered-whole p =
      let (same, past, all) = gather-all laws descriptors _ (laws.chunks-take p max_plaintext) in
      (
        same ∙ laws.origin-take p max_plaintext,
        past ∙ rw (laws.seen-take, laws.ahead-take) refl,
        all ∙ laws.ahead-take p max_plaintext,
      )

  write_parts-ok :
      (n : Native) (p : Many) {k : ℕ}
      → (write_vectored n (gathered p).0).0 ≡ ok k
      → (k ≤ length (take max_plaintext (many_rest p)))
        × (accepted (write_vectored n (gathered p).0).1
            ≡ accepted n ++ take k (take max_plaintext (many_rest p)))
        × (many_rest (commit_many (gathered p).1 (amount (take_parts p max_plaintext)) k)
            ≡ drop k (many_rest p))
  write_parts-ok n p {k} e =
      let law = plains.write_vectored-ok n (gathered p).0 e in
      let (from, past, all) = gathered-whole p in
      let bound = rw all at law.0 in
      (
        bound,
        law.1 ∙ rw all refl,
        rw laws.amount-take
            (rest-commit_many laws (gathered p).1 max_plaintext k (many_rest p) from past bound),
      )

  pub many-Conserves : Conserves many plains
  unfolding write_parts
  many-Conserves n p = elim (Result-cases (write_vectored n (gathered p).0).0) [
    | inr (c, e) ↦
        rw
          (
            e,
            write_parts,
            plains.write_vectored-err n _ e,
            laws.rest-give_up (gathered p).1,
            (gathered-whole p).0,
          )
          refl
    | inl (k, e) ↦
        let (bound, taken, rest) = write_parts-ok n p e in
        rw (e, write_parts, taken, rest)
          (split-take (accepted n) k max_plaintext (many_rest p) bound)
  ]

  pub many-Shrinks : Shrinks many
  unfolding write_parts
  many-Shrinks n p k e pos =
      let (bound, taken, rest) = write_parts-ok n p e in
      rw (e, write_parts, rest) (drop-lt max_plaintext k (many_rest p) bound pos)

module _ ⦃o : Outside⦄ ⦃v : Vectored⦄ (writes : WriteLaws) where
  pub many-Queues : Queues many writes
  unfolding write_parts
  many-Queues n p = writes.write_vectored-queued n _
