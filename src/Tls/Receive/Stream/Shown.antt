-- ===== src/Tls/Receive/Stream/Shown.antt =====
-- The shared projections of a retained stream and its next head show the same segment.
use tls.Base.{
  ℕ, ◌-◌, ◌≡◌, refl, ap, sym, subst, ◌∙◌, inl, inr, Bool-cases, Option-cases, Result-cases, Option,
  none, some, Result, ok, err, List, [], ◌==◌, length, take, drop, take-nil, drop-nil, arith,
}
use tls.Outside.{Outside}
use tls.Outside.Chunks.{Chunks, ChunkLaws}
use tls.State.Source
use tls.State.Source.Window.{unread, InRange, as_slice-unread, length-unread}
use tls.Tls.Receive.Stream.{Retained, Current, plain_head, non_empty, as_ref, next}
use tls.Tls.Receive.Stream.Contents.{plain_bytes, Whole, PlainInRange}
use tls.Tls.Receive.Stream.Consume.{front, front-some, front-none}
use tls.Tls.Receive.Stream.View.{
  Views, Backing, empty, staged_view, plain_view, as_slice, view, view_try_get, try_get,
  current_view, current_as_ref,
}

nil_of : (xs : List ℕ) → length xs ≡ 0 → xs ≡ []
nil_of xs e = ground arith

-- The bytes from `start` up to `end`.
abbrev pub range_of : ℕ → ℕ → List ℕ → List ℕ
range_of start end bytes = take (end - start) (drop start bytes)

module _ ⦃o : Outside⦄ ⦃k : Chunks⦄ ⦃v : Views⦄ where
  open o use {Chunk, chunk_slice}
  open v use {
    ChunkView, chunk_view, head_view, view_bytes, slice_try_get, chunk_try_get, plain_try_get,
  }

  -- Views show the bytes of what they are of, and a range shows that part of them.
  pub record ViewLaws : Type 0 where
    pub view_bytes-chunk_view : (c : Chunk) → view_bytes (chunk_view c) ≡ chunk_slice c
    pub view_bytes-head_view : (h : k.ChunkHead) → view_bytes (head_view h) ≡ k.head_slice h
    pub chunk_try_get-range :
        (p q : ChunkView) (start end : ℕ)
        → chunk_try_get p start end ≡ ok q
        → view_bytes q ≡ range_of start end (view_bytes p)
    pub plain_try_get-range :
        (p q : List ℕ) (start end : ℕ) → plain_try_get p start end ≡ ok q → q ≡ range_of start end p

  -- What the next head of a stream shows, where the stream shows `bytes`.
  abbrev pub NextShows : Retained → List ℕ → Option Current → Type 0
  NextShows r bytes none = bytes ≡ []
  NextShows r bytes (some current) =
      (current_as_ref current.backing ≡ some bytes) × (current.left ≡ r.remaining)

  pub record Shows (r : Retained) (bytes : List ℕ) : Type 0 where
    pub by_ref : as_ref r ≡ some bytes
    pub by_view : (b : Backing) × (view r ≡ some b) × (as_slice b ≡ bytes)
    pub by_next : NextShows r bytes (next r)

module _ ⦃o : Outside⦄ ⦃k : Chunks⦄ ⦃v : Views⦄ (laws : ChunkLaws) (views : ViewLaws) where
  staged-Shows :
      (r : Retained) (c : o.Chunk) → non_empty r.staged ≡ some c → Shows r (o.chunk_slice c)
  unfolding as_ref view next current_as_ref current_view as_slice
  staged-Shows r c e = record {
    by_ref = rw (e, as_ref) refl;
    by_view = (staged_view (v.chunk_view c), ground arith, views.view_bytes-chunk_view c);
    by_next =
        rw (e, next)
          (
            ap some (views.view_bytes-head_view (k.chunk_head c) ∙ laws.head_slice-chunk_head c),
            refl,
          );
  }

  plain-Shows :
      (r : Retained) (p : Source.Cursor)
      → InRange p
      → non_empty r.staged ≡ none
      → r.plain ≡ some p
      → Shows r (unread p)
  unfolding as_ref view next current_as_ref current_view as_slice Source.head Source.head_view
      Source.cursor_view Source.as_slice
  plain-Shows r p range e f =
      let seen : Source.view p p.len ≡ some (unread p) = as_slice-unread p range in
      record {
        by_ref = rw (e, f, as_ref) seen;
        by_view = (plain_view (unread p), ground (arith, seen), refl);
        by_next = elim (Bool-cases (p.len == 0)) [
          | inl z ↦
              let bare : next r ≡ none = ground arith in
              subst (NextShows r (unread p)) (sym bare)
                (nil_of (unread p) (ground (arith, length-unread p range)))
          | inr nz ↦
              let start : Source.Head = record { cursor = p; remaining = p.len } in
              let current : Current = record { backing = plain_head start; left = r.remaining } in
              let found : next r ≡ some current = ground arith in
              subst (NextShows r (unread p)) (sym found) (rw (seen, current_as_ref) refl, refl)
        ];
      }

  nothing-Shows : (r : Retained) → non_empty r.staged ≡ none → r.plain ≡ none → Shows r []
  unfolding as_ref view next as_slice
  nothing-Shows r e f = record {
    by_ref = rw (e, f, as_ref) refl;
    by_view = (empty, ground arith, refl);
    by_next = rw (e, f, next) refl;
  }

  -- What a whole stream shows by reference and by view is its first segment, and so does the head
  -- that is consumed next, with the count of the stream; there is no head only if there are no bytes.
  pub next-Shows : (r : Retained) → Whole r → Shows r (front r)
  next-Shows r h = elim (Option-cases (non_empty r.staged)) [
    | inr (c, e) ↦ subst (Shows r) (sym (front-some laws r e)) (staged-Shows r c e)
    | inl e ↦ elim (Option-cases r.plain) [
      | inl f ↦ subst (Shows r) (sym (front-none laws r e ∙ ap plain_bytes f)) (nothing-Shows r e f)
      | inr (p, f) ↦
          subst (Shows r) (sym (front-none laws r e ∙ ap plain_bytes f))
            (plain-Shows r p (subst PlainInRange f h.in_range) e f)
    ]
  ]

  range_of-nil : (start end : ℕ) → range_of start end [] ≡ []
  range_of-nil start end = ap (take (end - start)) (drop-nil start) ∙ take-nil (end - start)

  view_try_get-range :
      (b q : Backing) (start end : ℕ)
      → view_try_get b start end ≡ ok q
      → as_slice q ≡ range_of start end (as_slice b)
  unfolding view_try_get as_slice
  view_try_get-range empty q start end e = elim (Result-cases (v.slice_try_get [] start end)) [
    | inr (cause, f) ↦ absurd (ground arith)
    | inl (part, f) ↦
        let same : q ≡ empty = ground arith in ap as_slice same ∙ sym (range_of-nil start end)
  ]
  view_try_get-range (staged_view p) q start end e =
      elim (Result-cases (v.chunk_try_get p start end)) [
        | inr (cause, f) ↦ absurd (ground arith)
        | inl (part, f) ↦
            let same : q ≡ staged_view part = ground arith in
            ap as_slice same ∙ views.chunk_try_get-range p part start end f
      ]
  view_try_get-range (plain_view p) q start end e =
      elim (Result-cases (v.plain_try_get p start end)) [
        | inr (cause, f) ↦ absurd (ground arith)
        | inl (part, f) ↦
            let same : q ≡ plain_view part = ground arith in
            ap as_slice same ∙ views.plain_try_get-range p part start end f
      ]

  abbrev pub Ranged : Retained → ℕ → ℕ → Option (Result v.RangeError Backing) → Type 0
  Ranged r start end none = ⊥
  Ranged r start end (some (err cause)) = Unit
  Ranged r start end (some (ok q)) = as_slice q ≡ range_of start end (front r)

  -- Getting a range of a whole stream never faults, and what it gives shows those bytes of the first
  -- segment.
  pub try_get-Ranged :
      (r : Retained) (start end : ℕ) → Whole r → Ranged r start end (try_get r start end)
  unfolding try_get
  try_get-Ranged r start end h =
      let (b, e, f) = (next-Shows r h).by_view in
      elim (Result-cases (view_try_get b start end)) [
        | inr (cause, g) ↦ rw (e, g, try_get) tt
        | inl (q, g) ↦
            rw (e, g, try_get) (view_try_get-range b q start end g ∙ ap (range_of start end) f)
      ]
