-- ===== src/Outside/Vectored.antt =====
-- dope's plan of a send over several buffers, and the contract that the encryption loop relies on.
use tls.Base.{
  ℕ, suc, ◌≤◌, ◌≡◌, ◌↔◌, Bool, true, Option, none, some, List, [], ◌++◌, length, take, drop,
}

pub record Vectored : Type 1 where
  -- progress::Input over at most `descriptors` buffers. A Part yields its chunks one by one, and
  -- committing it consumes the chunks that it has yielded.
  pub descriptors : ℕ
  pub Many : Type 0
  pub Parts : Type 0
  pub many_rest : Many → List ℕ
  pub is_empty : Many → Bool
  pub take_parts : Many → ℕ → Parts
  pub amount : Parts → ℕ
  pub next_chunk : Parts → Option (List ℕ × Parts)
  pub commit_parts : Parts → Many
  pub give_up : Parts → Many
  -- transfer::Len::prefix.
  pub prefix : ℕ → ℕ → ℕ

module _ ⦃v : Vectored⦄ where
  open v use {
    descriptors, Many, Parts, many_rest, is_empty, take_parts, amount, next_chunk, commit_parts,
    give_up, prefix,
  }

  -- `origin` is the plaintext that a part was taken from, `seen` the bytes of it that were yielded,
  -- and `ahead` and `chunks` what is still to be yielded.
  pub record VectoredLaws : Type 0 where
    pub origin : Parts → List ℕ
    pub seen : Parts → List ℕ
    pub ahead : Parts → List ℕ
    pub chunks : Parts → ℕ
    pub is_empty_iff : (p : Many) → (is_empty p ≡ true) ↔ (many_rest p ≡ [])
    pub origin-take : (p : Many) (k : ℕ) → origin (take_parts p k) ≡ many_rest p
    pub seen-take : (p : Many) (k : ℕ) → seen (take_parts p k) ≡ []
    pub ahead-take : (p : Many) (k : ℕ) → ahead (take_parts p k) ≡ take k (many_rest p)
    pub chunks-take : (p : Many) (k : ℕ) → chunks (take_parts p k) ≤ descriptors
    pub amount-take : (p : Many) (k : ℕ) → amount (take_parts p k) ≡ length (take k (many_rest p))
    pub next_chunk-none : (q : Parts) → next_chunk q ≡ none → (ahead q ≡ []) × (chunks q ≡ 0)
    pub next_chunk-some :
        (q : Parts) {c : List ℕ} {q' : Parts}
        → next_chunk q ≡ some (c, q')
        → (origin q' ≡ origin q)
          × (seen q' ≡ seen q ++ c)
          × (ahead q ≡ c ++ ahead q')
          × (chunks q ≡ suc (chunks q'))
    pub rest-commit : (q : Parts) → many_rest (commit_parts q) ≡ drop (length (seen q)) (origin q)
    pub rest-give_up : (q : Parts) → many_rest (give_up q) ≡ origin q
    pub prefix-le : (n k : ℕ) → n ≤ k → prefix n k ≡ n
