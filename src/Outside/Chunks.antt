-- ===== src/Outside/Chunks.antt =====
-- A shared chunk of a receive buffer and the cursor over it that o3 provides, dope's bound on a
-- transfer, and the contract that the retained stream relies on.
use tls.Base.{ℕ, ◌+◌, ◌≤◌, ◌<◌, ◌≡◌, ◌↔◌, min, Bool, true, Result, ok, err, List, [], length, drop}
use tls.Outside.{Outside}

pub record Chunks ⦃o : Outside⦄ : Type 1 where
  -- bytes::Cursor over a storage::Shared. A chunk is the bytes of it that are not consumed, and a
  -- cursor that is dropped without `commit` leaves it as it was.
  pub ChunkHead : Type 0
  pub is_empty : o.Chunk → Bool
  pub remaining : o.Chunk → ℕ
  pub chunk_head : o.Chunk → ChunkHead
  pub head_slice : ChunkHead → List ℕ
  pub try_consume : ChunkHead → ℕ → Result o.ConsumeError (Unit {0}) × ChunkHead
  pub consume_max : ChunkHead → ℕ → ℕ × ChunkHead
  pub commit : ChunkHead → ℕ × o.Chunk
  -- bounded::Usize::try_add with the bound transfer::MAX_BYTES, and transfer::Len::prefix.
  pub max_bytes : ℕ
  pub try_add : ℕ → ℕ → Result o.BoundedError ℕ
  pub len_prefix : ℕ → ℕ → ℕ

module _ ⦃o : Outside⦄ ⦃k : Chunks⦄ where
  open o use {Chunk, chunk_slice, check}
  open k use {
    is_empty, remaining, chunk_head, head_slice, try_consume, consume_max, commit, max_bytes,
    try_add, len_prefix,
  }

  pub record ChunkLaws : Type 0 where
    pub is_empty_iff : (c : Chunk) → (is_empty c ≡ true) ↔ (chunk_slice c ≡ [])
    pub remaining-slice : (c : Chunk) → remaining c ≡ length (chunk_slice c)
    pub head_slice-chunk_head : (c : Chunk) → head_slice (chunk_head c) ≡ chunk_slice c
    pub try_consume-check :
        (c : Chunk) (a : ℕ) → (try_consume (chunk_head c) a).0 ≡ check a (length (chunk_slice c))
    pub try_consume-commit :
        (c : Chunk) (a : ℕ)
        → (try_consume (chunk_head c) a).0 ≡ ok tt
        → ((commit (try_consume (chunk_head c) a).1).0 ≡ a)
          × (chunk_slice (commit (try_consume (chunk_head c) a).1).1 ≡ drop a (chunk_slice c))
    pub consume_max-count :
        (c : Chunk) (a : ℕ) → (consume_max (chunk_head c) a).0 ≡ min a (length (chunk_slice c))
    pub consume_max-commit :
        (c : Chunk) (a : ℕ)
        → ((commit (consume_max (chunk_head c) a).1).0 ≡ min a (length (chunk_slice c)))
          × (chunk_slice (commit (consume_max (chunk_head c) a).1).1
              ≡ drop (min a (length (chunk_slice c))) (chunk_slice c))
    pub try_add-ok : (a b : ℕ) {n : ℕ} → try_add a b ≡ ok n → (n ≡ a + b) × (n ≤ max_bytes)
    pub try_add-err : (a b : ℕ) {e : o.BoundedError} → try_add a b ≡ err e → max_bytes < a + b
    pub len_prefix-le : (a b : ℕ) → a ≤ b → len_prefix a b ≡ a
