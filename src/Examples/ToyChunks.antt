-- ===== src/Examples/ToyChunks.antt =====
-- The chunks of the small model: a chunk is its bytes, and a transfer has at most a hundred.
use tls.Base.{
  ℕ, ◌+◌, ◌≤◌, ◌<◌, ◌≡◌, refl, min, true, false, Result, ok, err, List, length, drop, is_nil, leb,
  arith,
}
use tls.Outside.Chunks.{Chunks, ChunkLaws}
use tls.Examples.Toy.{toy, is_nil_iff}

pub record ToyHead : Type 0 where
  pub took : ℕ
  pub behind : List ℕ

abbrev toy_try_consume : ToyHead → ℕ → Result (Unit {0}) (Unit {0}) × ToyHead
toy_try_consume h a = elim (leb a (length h.behind)) [
  | true ↦ (ok tt, record { took = h.took + a; behind = drop a h.behind })
  | false ↦ (err tt, h)
]

abbrev pub toy_consume_max : ToyHead → ℕ → ℕ × ToyHead
toy_consume_max h a =
    let n = min a (length h.behind) in (n, record { took = h.took + n; behind = drop n h.behind })

abbrev toy_try_add : ℕ → ℕ → Result (Unit {0}) ℕ
toy_try_add a b = elim (leb (a + b) 100) [ true ↦ ok (a + b) | false ↦ err tt ]

instance abbrev pub toy_chunks : Chunks
toy_chunks = record {
  ChunkHead = ToyHead;
  is_empty = λ c. is_nil c;
  remaining = λ c. length c;
  chunk_head = λ c. record { took = 0; behind = c };
  head_slice = λ h. h.behind;
  try_consume = toy_try_consume;
  consume_max = toy_consume_max;
  commit = λ h. (h.took, h.behind);
  max_bytes = 100;
  try_add = toy_try_add;
  len_prefix = λ a b. min a b;
}

toy_consume-check :
    (c : List ℕ) (a : ℕ)
    → (toy_try_consume (record { took = 0; behind = c }) a).0 ≡ toy.check a (length c)
toy_consume-check c a = ground arith

toy_consume-commit :
    (c : List ℕ) (a : ℕ)
    → (toy_try_consume (record { took = 0; behind = c }) a).0 ≡ ok tt
    → ((toy_try_consume (record { took = 0; behind = c }) a).1.took ≡ a)
      × ((toy_try_consume (record { took = 0; behind = c }) a).1.behind ≡ drop a c)
toy_consume-commit c a e = ground arith

toy_add-ok : (a b : ℕ) {n : ℕ} → toy_try_add a b ≡ ok n → (n ≡ a + b) × (n ≤ 100)
toy_add-ok a b e = ground arith

toy_add-err : (a b : ℕ) {e : Unit {0}} → toy_try_add a b ≡ err e → 100 < a + b
toy_add-err a b e = ground arith

pub toy_chunk_laws : ChunkLaws
toy_chunk_laws = record {
  is_empty_iff = is_nil_iff;
  remaining-slice = λ c. refl;
  head_slice-chunk_head = λ c. refl;
  try_consume-check = toy_consume-check;
  try_consume-commit = λ c a e. toy_consume-commit c a e;
  consume_max-count = λ c a. refl;
  consume_max-commit = λ c a. (omega arith, refl);
  try_add-ok = λ a b e. toy_add-ok a b e;
  try_add-err = λ a b e. toy_add-err a b e;
  len_prefix-le = λ a b h. omega arith;
}
