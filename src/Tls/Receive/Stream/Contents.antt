-- ===== src/Tls/Receive/Stream/Contents.antt =====
-- The bytes of a retained stream, and the streams that hold together.
use tls.Base.{
  ℕ, ◌-◌, ◌+◌, ◌≤◌, ◌<◌, ◌≡◌, refl, ap, sym, ◌∙◌, inl, inr, Bool-cases, Result-cases, Option, none,
  some, Result, ok, err, List, [], ◌++◌, ◌==◌, length, arith, length-append,
}
use tls.Outside.{Outside}
use tls.Error.{Error}
use tls.Outside.Chunks.{Chunks, ChunkLaws}
use tls.State.Source.{Cursor}
use tls.State.Source.Window.{unread, InRange, length-unread}
use tls.Tls.Receive.Stream.{Retained, non_empty, staged_len, try_new, settle_len}

module _ ⦃o : Outside⦄ where
  open o use {Chunk, chunk_slice}

  abbrev pub staged_bytes : Option Chunk → List ℕ
  staged_bytes none = []
  staged_bytes (some chunk) = chunk_slice chunk

  abbrev pub plain_bytes : Option Cursor → List ℕ
  plain_bytes none = []
  plain_bytes (some plain) = unread plain

  -- The plaintext that the stream still holds, in order.
  abbrev pub contents : Retained → List ℕ
  contents r = staged_bytes r.staged ++ plain_bytes r.plain

  abbrev pub PlainInRange : Option Cursor → Type 0
  PlainInRange none = Unit
  PlainInRange (some plain) = InRange plain

  -- The plaintext in place is a range of its bytes, and `remaining` counts the contents.
  pub record Whole (r : Retained) : Type 0 where
    pub in_range : PlainInRange r.plain
    pub counted : r.remaining ≡ length (contents r)

module _ ⦃o : Outside⦄ ⦃k : Chunks⦄ (laws : ChunkLaws) where
  open o use {Chunk, chunk_slice}
  open k use {is_empty}

  pub staged_bytes-non_empty : (s : Option Chunk) → staged_bytes (non_empty s) ≡ staged_bytes s
  unfolding non_empty
  staged_bytes-non_empty none = refl
  staged_bytes-non_empty (some chunk) = ground (arith, laws.is_empty_iff chunk)

  pub staged_len-length : (s : Option Chunk) → staged_len s ≡ length (staged_bytes s)
  unfolding staged_len
  staged_len-length none = refl
  staged_len-length (some chunk) = laws.remaining-slice chunk

  pub settle_len-le :
      (r : Retained) (left consumed : ℕ)
      → consumed ≤ left
      → settle_len r left consumed ≡ some (consumed, record r { remaining = left - consumed })
  unfolding settle_len
  settle_len-le r left consumed h = ground (arith, laws.len_prefix-le (left - consumed) left)

  unread-none : (p : Cursor) → InRange p → p.len ≡ 0 → unread p ≡ []
  unread-none p h e = let l = length-unread p h in nil_of (unread p) (omega arith)
    where
      nil_of : (xs : List ℕ) → length xs ≡ 0 → xs ≡ []
      nil_of xs f = ground arith

  abbrev total : Option Chunk → Cursor → List ℕ
  total s p = staged_bytes s ++ unread p

  -- What `try_new` makes of a chunk and of plaintext in place.
  abbrev pub Starts : Option Chunk → Cursor → Result Error (Option Retained) → Type 0
  Starts s p (ok (some r)) = Whole r × (contents r ≡ total s p)
  Starts s p (ok none) = total s p ≡ []
  Starts s p (err _) = k.max_bytes < length (total s p)

  -- A new stream holds the chunk, then the plaintext in place, and counts them; there is none only
  -- if both are empty. It is refused only if they are longer than a transfer may be.
  pub try_new-Starts : (s : Option Chunk) (p : Cursor) → InRange p → Starts s p (try_new s p)
  unfolding try_new
  try_new-Starts s p h =
      let s' = non_empty s in
      let count : length (total s p) ≡ staged_len s' + p.len =
        rw (length-append, length-unread p h, ← staged_bytes-non_empty s, staged_len-length) refl in
      elim (Result-cases (k.try_add 0 (staged_len s'))) [
        | inr (e, f) ↦ rw (f, try_new) (omega (arith, laws.try_add-err 0 (staged_len s') f, count))
        | inl (n, f) ↦ elim (Result-cases (k.try_add n p.len)) [
          | inr (e, g) ↦
              rw (f, g, try_new)
                (omega
                  (arith, laws.try_add-ok 0 (staged_len s') f, laws.try_add-err n p.len g, count))
          | inl (m, g) ↦ elim (Bool-cases (m == 0)) [
            | inl zero_len ↦
                rw (f, g, zero_len, try_new)
                  (ground
                    (arith, laws.try_add-ok 0 (staged_len s') f, laws.try_add-ok n p.len g, count))
            | inr some_len ↦
                let added : m ≡ length (total s p) =
                  omega (
                    arith,
                    laws.try_add-ok 0 (staged_len s') f,
                    laws.try_add-ok n p.len g,
                    count,
                  ) in
                elim (Bool-cases (p.len == 0)) [
                  | inl no_body ↦
                      let same : staged_bytes s' ++ [] ≡ total s p =
                        rw (staged_bytes-non_empty s, unread-none p h (ground arith)) refl in
                      rw (f, g, some_len, no_body, try_new)
                        (record { in_range = tt; counted = added ∙ ap length (sym same) }, same)
                  | inr body ↦
                      let same : staged_bytes s' ++ unread p ≡ total s p =
                        rw (staged_bytes-non_empty s) refl in
                      rw (f, g, some_len, body, try_new)
                        (record { in_range = h; counted = added ∙ ap length (sym same) }, same)
                ]
          ]
        ]
      ]
