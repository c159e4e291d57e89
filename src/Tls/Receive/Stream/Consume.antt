-- ===== src/Tls/Receive/Stream/Consume.antt =====
-- Consuming at most a count from a retained stream.
use tls.Base.{
  ℕ, ◌-◌, ◌≤◌, ◌≡◌, ◌≢◌, refl, ap, sym, subst, ◌∙◌, min, inl, inr, Bool-cases, Option-cases, Option,
  none, some, List, [], ◌++◌, ◌==◌, length, drop, arith, length-append, length-drop, drop-of-short,
}
use tls.Outside.{Outside}
use tls.Outside.Chunks.{Chunks, ChunkLaws}
use tls.State.Source
use tls.State.Source.Window.{unread, InRange, length-unread, unread-drop}
use tls.Tls.Receive.Stream.{Retained, non_empty, next, commit, current_consume_max, consume_max}
use tls.Tls.Receive.Stream.Contents.{
  staged_bytes, plain_bytes, contents, Whole, PlainInRange, settle_len-le, staged_bytes-non_empty,
}

module _ ⦃o : Outside⦄ ⦃k : Chunks⦄ where
  open o use {Chunk, chunk_slice}

  abbrev pub segment : Option Chunk → Option Source.Cursor → List ℕ
  segment (some chunk) plain = chunk_slice chunk
  segment none plain = plain_bytes plain

  -- The segment that the stream shows first.
  abbrev pub front : Retained → List ℕ
  front r = segment (non_empty r.staged) r.plain

  -- What is left of a stream once `n` bytes of its front are consumed.
  pub record Took (r : Retained) (n : ℕ) (r' : Retained) : Type 0 where
    pub whole : Whole r'
    pub left : contents r' ≡ drop n (contents r)

module _ ⦃o : Outside⦄ ⦃k : Chunks⦄ (laws : ChunkLaws) where
  open o use {Chunk, chunk_slice}

  pub Took-staged :
      (r : Retained) (c c' : Chunk) (n : ℕ)
      → Whole r
      → r.staged ≡ some c
      → n ≤ length (chunk_slice c)
      → chunk_slice c' ≡ drop n (chunk_slice c)
      → Took r n (record r { staged = some c'; remaining = r.remaining - n })
  Took-staged r c c' n h e le sl =
      let same : chunk_slice c' ++ plain_bytes r.plain ≡ drop n (contents r) =
        rw (e, sl, drop-of-short n (chunk_slice c) (plain_bytes r.plain) le) refl in
      record {
        whole = record {
          in_range = h.in_range;
          counted = rw same (ap (λ m. m - n) h.counted ∙ sym (length-drop n (contents r)));
        };
        left = same;
      }

  pub Took-plain :
      (r : Retained) (p : Source.Cursor) (n : ℕ)
      → Whole r
      → non_empty r.staged ≡ none
      → r.plain ≡ some p
      → n ≤ p.len
      → Took r n
          (record r { plain = some (record p { len = p.len - n }); remaining = r.remaining - n })
  Took-plain r p n h e f le =
      let range : InRange p = subst PlainInRange f h.in_range in
      let none_staged : staged_bytes r.staged ≡ [] =
        sym (staged_bytes-non_empty laws r.staged) ∙ ap staged_bytes e in
      let same : staged_bytes r.staged ++ unread (record p { len = p.len - n })
          ≡ drop n (contents r) =
        rw (none_staged, f) (unread-drop p n range le) in
      record {
        whole = record {
          in_range = record { shrinks = omega (arith, range.shrinks); fits = range.fits };
          counted = rw same (ap (λ m. m - n) h.counted ∙ sym (length-drop n (contents r)));
        };
        left = same;
      }

  pub non_empty-some : (s : Option Chunk) (c : Chunk) → non_empty s ≡ some c → s ≡ some c
  unfolding non_empty
  non_empty-some none c e = cc
  non_empty-some (some d) c e = ground (arith)

  pub front-some :
      (r : Retained) {c : Chunk} → non_empty r.staged ≡ some c → front r ≡ chunk_slice c
  front-some r e = ap (λ s. segment s r.plain) e

  pub front-none : (r : Retained) → non_empty r.staged ≡ none → front r ≡ plain_bytes r.plain
  front-none r e = ap (λ s. segment s r.plain) e

  pub slice-bound :
      (r : Retained) (c : Chunk)
      → Whole r
      → non_empty r.staged ≡ some c
      → length (chunk_slice c) ≤ r.remaining
  slice-bound r c h e =
      rw (h.counted, non_empty-some r.staged c e)
        (omega (arith, length-append (chunk_slice c) (plain_bytes r.plain)))

  pub plain-bound :
      (r : Retained) (p : Source.Cursor) → Whole r → r.plain ≡ some p → p.len ≤ r.remaining
  plain-bound r p h f =
      let range : InRange p = subst PlainInRange f h.in_range in
      rw (h.counted, f)
        (omega (arith, length-append (staged_bytes r.staged) (unread p), length-unread p range))

  staged-consumed :
      (r : Retained) (c : Chunk) (max : ℕ)
      → Whole r
      → non_empty r.staged ≡ some c
      → let n = min max (length (chunk_slice c)) in
        consume_max r max
        ≡ some (
          n,
          record r {
            staged = some (k.commit (k.consume_max (k.chunk_head c) max).1).1;
            remaining = r.remaining - n;
          },
        )
  unfolding consume_max next commit current_consume_max
  staged-consumed r c max h e =
      let n = min max (length (chunk_slice c)) in
      let (count, slice) = laws.consume_max-commit c max in
      let le : n ≤ r.remaining = omega (arith, slice-bound r c h e) in
      ground (
        arith,
        laws.consume_max-count c max,
        count,
        settle_len-le laws
            (record r { staged = some (k.commit (k.consume_max (k.chunk_head c) max).1).1 })
            r.remaining n le,
      )

  plain-consumed :
      (r : Retained) (p : Source.Cursor) (max : ℕ)
      → Whole r
      → non_empty r.staged ≡ none
      → r.plain ≡ some p
      → p.len ≢ 0
      → let n = min max p.len in
        consume_max r max
        ≡ some (
          n,
          record r { plain = some (record p { len = p.len - n }); remaining = r.remaining - n },
        )
  unfolding consume_max next commit current_consume_max Source.head Source.consume_max Source.commit
  plain-consumed r p max h e f nz =
      let n = min max p.len in
      let le : n ≤ r.remaining = omega (arith, plain-bound r p h f) in
      ground (
        arith,
        settle_len-le laws (record r { plain = some (record p { len = p.len - n }) }) r.remaining n
            le,
      )

  nothing-consumed :
      (r : Retained) (max : ℕ)
      → Whole r
      → non_empty r.staged ≡ none
      → length (plain_bytes r.plain) ≡ 0
      → consume_max r max ≡ some (0, r)
  unfolding consume_max next Source.head
  nothing-consumed r max h e z = elim (Option-cases r.plain) [
    | inl f ↦ ground arith
    | inr (p, f) ↦
        let l = length-unread p (subst PlainInRange f h.in_range) in
        let z' : length (unread p) ≡ 0 = subst (λ q. length (plain_bytes q) ≡ 0) f z in ground arith
  ]

  Took-nothing : (r : Retained) → Whole r → Took r 0 r
  Took-nothing r h = record { whole = h; left = refl }

  -- Consuming at most `max` bytes takes what the first segment has of them, without a fault, and
  -- leaves a whole stream of the bytes behind them, in order.
  pub consume_max-Took :
      (r : Retained) (max : ℕ)
      → Whole r
      → (r' : Retained) × (consume_max r max ≡ some (min max (length (front r)), r'))
        × Took r (min max (length (front r))) r'
  consume_max-Took r max h = elim (Option-cases (non_empty r.staged)) [
    | inr (c, e) ↦
        let n = min max (length (chunk_slice c)) in
        let same : min max (length (front r)) ≡ n =
          ap (λ xs. min max (length xs)) (front-some r e) in
        rw same (
          _,
          staged-consumed r c max h e,
          Took-staged r c _ n h (non_empty-some r.staged c e) (omega arith)
              (laws.consume_max-commit c max).1,
        )
    | inl e ↦
        let shown : length (front r) ≡ length (plain_bytes r.plain) = ap length (front-none r e) in
        elim (Bool-cases (length (plain_bytes r.plain) == 0)) [
          | inl z ↦
              let nil : length (plain_bytes r.plain) ≡ 0 = ground arith in
              let same : min max (length (front r)) ≡ 0 = omega arith in
              rw same (r, nothing-consumed r max h e nil, Took-nothing r h)
          | inr nz ↦ elim (Option-cases r.plain) [
            | inl f ↦ absurd (ground arith)
            | inr (p, f) ↦
                let counted : length (plain_bytes r.plain) ≡ p.len =
                  ap (λ q. length (plain_bytes q)) f
                  ∙ length-unread p (subst PlainInRange f h.in_range) in
                let same : min max (length (front r)) ≡ min max p.len = omega arith in
                rw same (
                  _,
                  plain-consumed r p max h e f (ground arith),
                  Took-plain r p _ h e f (omega arith),
                )
          ]
        ]
  ]
