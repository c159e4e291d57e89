-- ===== src/Tls/Receive/Stream/Front.antt =====
-- The first segment of a retained stream among its contents.
use tls.Base.{
  ℕ, ◌<◌, ◌≡◌, ◌⊎◌, refl, ap, sym, ◌∙◌, inl, inr, Option-cases, Option, none, some, List, [], ◌∷◌,
  ◌++◌, length, arith, append-nil,
}
use tls.Outside.{Outside}
use tls.Outside.Chunks.{Chunks, ChunkLaws}
use tls.Tls.Receive.Stream.{Retained, non_empty}
use tls.Tls.Receive.Stream.Contents.{contents, plain_bytes, staged_bytes, staged_bytes-non_empty}
use tls.Tls.Receive.Stream.Consume.{front, front-some, front-none, non_empty-some}

pub empty_or_more : (xs : List ℕ) → (0 < length xs) ⊎ (xs ≡ [])
empty_or_more [] = inr refl
empty_or_more (x ∷ xs) = inl (omega arith)

module _ ⦃o : Outside⦄ ⦃k : Chunks⦄ (laws : ChunkLaws) where
  non_empty-bytes :
      (s : Option o.Chunk) (c : o.Chunk) → non_empty s ≡ some c → 0 < length (o.chunk_slice c)
  unfolding non_empty
  non_empty-bytes none c e = cc
  non_empty-bytes (some d) c e = ground (arith, laws.is_empty_iff d)

  -- The first segment is a front of the contents, and is empty only if they are.
  pub contents-front :
      (r : Retained)
      → (rest : List ℕ) × (contents r ≡ front r ++ rest)
        × ((0 < length (front r)) ⊎ (contents r ≡ []))
  contents-front r = elim (Option-cases (non_empty r.staged)) [
    | inr (c, e) ↦
        let shown = front-some laws r e in
        (
          plain_bytes r.plain,
          rw shown
              (ap (λ s. staged_bytes s ++ plain_bytes r.plain) (non_empty-some laws r.staged c e)),
          inl (rw shown (non_empty-bytes r.staged c e)),
        )
    | inl e ↦
        let same : contents r ≡ front r =
          ap (λ xs. xs ++ plain_bytes r.plain)
            (sym (staged_bytes-non_empty laws r.staged) ∙ ap staged_bytes e)
          ∙ sym (front-none laws r e) in
        (
          [],
          same ∙ sym (append-nil (front r)),
          elim (empty_or_more (contents r)) [
            | inl more ↦ inl (omega (arith, ap length same))
            | inr bare ↦ inr bare
          ],
        )
  ]
