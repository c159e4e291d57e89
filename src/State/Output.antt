-- ===== src/State/Output.antt =====
-- The vectored writer writes as one write of the joined chunks would.
use tls.Base.{
  ℕ, ◌+◌, ◌-◌, ◌≤◌, ◌≡◌, ◌≢◌, ap, ◌∙◌, sym, min, inl, inr, Bool-cases, ◌==◌, List, [], ◌∷◌, ◌++◌,
  length, take, flatten, arith, take-of-short, take-of-long, take-all, take-nil, length-append,
  append_assoc, append-nil,
}
use tls.Outside.{Outside}
use tls.Outside.Laws.{CursorLaws}
use tls.State.{write_chunks, write_all_vectored}

module _ ⦃o : Outside⦄ (laws : CursorLaws) where
  open o use {Spare, as_slice, remaining, append, commit}

  pub record Writes (w : ℕ) (s : Spare) (bs : List ℕ) (r : ℕ × Spare) : Type 0 where
    pub count : r.0 ≡ w + min (length bs) (remaining s)
    pub left : remaining r.1 + min (length bs) (remaining s) ≡ remaining s
    pub bytes : as_slice (commit r.1) ≡ as_slice (commit s) ++ take (remaining s) bs

  whole_chunk :
      (w : ℕ) (s : Spare) (c bs : List ℕ) (r : ℕ × Spare)
      → (append s c).0 ≡ length c
      → Writes (w + (append s c).0) (append s c).1 bs r
      → Writes w s (c ++ bs) r
  whole_chunk w s c bs r whole v = record {
    count = omega (arith, laws.append-count s c, laws.append-remaining s c, length-append c bs);
    left = omega (arith, laws.append-count s c, laws.append-remaining s c, length-append c bs);
    bytes = rw (take-of-long (remaining s) c bs fits) (
        v.bytes
        ∙ ap (λ xs. xs ++ take (remaining (append s c).1) bs) (laws.append-bytes s c)
        ∙ rw (take-all (remaining s) c fits, same) (append_assoc (as_slice (commit s)) c _));
  }
    where
      fits : length c ≤ remaining s
      fits = omega (arith, laws.append-count s c)

      same : remaining (append s c).1 ≡ remaining s - length c
      same = omega (arith, laws.append-remaining s c)

  short_chunk :
      (w : ℕ) (s : Spare) (c bs : List ℕ)
      → (append s c).0 ≢ length c
      → Writes w s (c ++ bs) (w + (append s c).0, (append s c).1)
  short_chunk w s c bs short = record {
    count = omega (arith, laws.append-count s c, length-append c bs);
    left = omega (arith, laws.append-count s c, laws.append-remaining s c, length-append c bs);
    bytes =
        laws.append-bytes s c
        ∙ ap (◌++◌ (as_slice (commit s))) (sym (take-of-short (remaining s) c bs over));
  }
    where
      over : remaining s ≤ length c
      over = omega (arith, laws.append-count s c)

  write_chunks-Writes :
      (w : ℕ) (s : Spare) (cs : List (List ℕ)) → Writes w s (flatten cs) (write_chunks w s cs)
  unfolding write_chunks
  write_chunks-Writes w s [] = record {
    count = omega arith;
    left = omega arith;
    bytes = rw take-nil (sym (append-nil (as_slice (commit s))));
  }
  write_chunks-Writes w s (c ∷ cs) = elim (Bool-cases ((append s c).0 == length c)) [
    | inl whole ↦
        rw (whole, write_chunks)
          (whole_chunk w s c (flatten cs) _ (ground arith)
            (write_chunks-Writes (w + (append s c).0) (append s c).1 cs))
    | inr part ↦ rw (part, write_chunks) (short_chunk w s c (flatten cs) (ground arith))
  ]

  -- `Output::write_vectored` takes the longest prefix of the joined chunks that fits, appends it
  -- to the buffer in order, and reports its length.
  pub write_all_vectored-Writes :
      (s : Spare) (cs : List (List ℕ)) → Writes 0 s (flatten cs) (write_all_vectored s cs)
  unfolding write_all_vectored
  write_all_vectored-Writes s cs = write_chunks-Writes 0 s cs
