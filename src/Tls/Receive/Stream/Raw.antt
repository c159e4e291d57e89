-- ===== src/Tls/Receive/Stream/Raw.antt =====
-- src/tls/receive/raw.rs: the raw consumption of an admitted prefix is the checked one.
use tls.Base.{
  ℕ, ◌≤◌, ◌≡◌, ap, subst, ◌∙◌, min, inl, inr, Option-cases, Option, none, some, length, arith,
}
use tls.Outside.{Outside}
use tls.Outside.Chunks.{Chunks, ChunkLaws}
use tls.State.Source
use tls.State.Source.Window.{length-unread}
use tls.Tls.Receive.Stream.{Retained, non_empty, next, commit, current_consume_max, consume_max}
use tls.Tls.Receive.Stream.Contents.{plain_bytes, Whole, PlainInRange}
use tls.Tls.Receive.Stream.Consume.{front, Took, front-some, front-none, consume_max-Took}
use tls.Tls.Receive.Stream.View.{Views, current_consume, consume}

module _ ⦃o : Outside⦄ ⦃k : Chunks⦄ ⦃v : Views⦄ where
  -- A cursor that consumes an admitted prefix is as after the checked consumption of it.
  pub record RawLaws : Type 0 where
    pub chunk_consume_raw-max :
        (c : o.Chunk) (n : ℕ)
        → n ≤ length (o.chunk_slice c)
        → v.chunk_consume_raw (k.chunk_head c) n ≡ (k.consume_max (k.chunk_head c) n).1

module _ ⦃o : Outside⦄ ⦃k : Chunks⦄ ⦃v : Views⦄ (laws : ChunkLaws) (raws : RawLaws) where
  abbrev behind : Option (ℕ × Retained) → Option Retained
  behind none = none
  behind (some (n, r)) = some r

  staged-consume :
      (r : Retained) (c : o.Chunk) (n : ℕ)
      → non_empty r.staged ≡ some c
      → n ≤ length (o.chunk_slice c)
      → consume r n ≡ behind (consume_max r n)
  unfolding consume consume_max next commit current_consume current_consume_max
  staged-consume r c n e le = ground (arith, raws.chunk_consume_raw-max c n le)

  plain-consume :
      (r : Retained) (p : Source.Cursor) (n : ℕ)
      → non_empty r.staged ≡ none
      → r.plain ≡ some p
      → n ≤ p.len
      → consume r n ≡ behind (consume_max r n)
  unfolding consume consume_max next commit current_consume current_consume_max Source.head
      Source.consume_raw Source.consume_max Source.commit
  plain-consume r p n e f le = let all : min n p.len ≡ n = omega arith in ground (arith, all)

  nothing-consume :
      (r : Retained) (n : ℕ)
      → non_empty r.staged ≡ none
      → r.plain ≡ none
      → consume r n ≡ behind (consume_max r n)
  unfolding consume consume_max next
  nothing-consume r n e f = ground arith

  pub consume-consume_max :
      (r : Retained) (n : ℕ)
      → Whole r
      → n ≤ length (front r)
      → consume r n ≡ behind (consume_max r n)
  consume-consume_max r n h le = elim (Option-cases (non_empty r.staged)) [
    | inr (c, e) ↦ staged-consume r c n e (omega (arith, ap length (front-some laws r e)))
    | inl e ↦ elim (Option-cases r.plain) [
      | inl f ↦ nothing-consume r n e f
      | inr (p, f) ↦
          let shown : length (front r) ≡ p.len =
            ap length (front-none laws r e ∙ ap plain_bytes f)
            ∙ length-unread p (subst PlainInRange f h.in_range) in
          plain-consume r p n e f (omega arith)
    ]
  ]

  -- The raw consumption of a prefix of the first segment, which is not checked, never faults, takes
  -- exactly that prefix and keeps the stream whole.
  pub consume-Took :
      (r : Retained) (n : ℕ)
      → Whole r
      → n ≤ length (front r)
      → (r' : Retained) × (consume r n ≡ some r') × Took r n r'
  consume-Took r n h le =
      let (r', run, took) = consume_max-Took laws r n h in
      let all : min n (length (front r)) ≡ n = omega arith in
      (r', consume-consume_max r n h le ∙ ap behind run, subst (λ m. Took r m r') all took)
