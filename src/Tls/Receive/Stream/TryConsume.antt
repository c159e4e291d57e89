-- ===== src/Tls/Receive/Stream/TryConsume.antt =====
-- Consuming an exact count from a retained stream.
use tls.Base.{
  ℕ, ◌-◌, ◌≤◌, ◌<◌, ◌≡◌, ◌≢◌, refl, ap, sym, subst, ◌∙◌, inl, inr, Bool-cases, Option-cases,
  Result-cases, Option, none, some, Result, ok, err, ◌==◌, length, arith,
}
use tls.Outside.{Outside}
use tls.Outside.Laws.{ReserveLaws}
use tls.Outside.Chunks.{Chunks, ChunkLaws}
use tls.State.Source
use tls.State.Source.Window.{unread, length-unread}
use tls.Tls.Receive.Stream.{Retained, non_empty, next, commit, current_try_consume, try_consume}
use tls.Tls.Receive.Stream.Contents.{plain_bytes, Whole, PlainInRange, settle_len-le}
use tls.Tls.Receive.Stream.Consume.{
  front, Took, Took-staged, Took-plain, non_empty-some, front-some, front-none, slice-bound,
  plain-bound,
}

module _ ⦃o : Outside⦄ ⦃k : Chunks⦄ where
  -- What is tried succeeds exactly if the first segment has the count, and an error changes nothing.
  abbrev pub Tries : Retained → ℕ → Option (Result o.ConsumeError (Unit {0}) × Retained) → Type 0
  Tries r amount none = ⊥
  Tries r amount (some (ok _, r')) = (amount ≤ length (front r)) × Took r amount r'
  Tries r amount (some (err _, r')) = (length (front r) < amount) × (r' ≡ r)

module _ ⦃o : Outside⦄ ⦃k : Chunks⦄ (laws : ChunkLaws) (reserves : ReserveLaws) where
  open o use {Chunk, chunk_slice, check}

  checked-err : (a l : ℕ) {e : o.ConsumeError} → check a l ≡ err e → l < a
  checked-err a l e = ground (arith, reserves.check_iff a l)

  staged-Tries :
      (r : Retained) (c : Chunk) (amount : ℕ)
      → Whole r
      → non_empty r.staged ≡ some c
      → Tries r amount (try_consume r amount)
  unfolding try_consume next commit current_try_consume
  staged-Tries r c amount h e =
      let shown : length (front r) ≡ length (chunk_slice c) = ap length (front-some laws r e) in
      let same = laws.try_consume-check c amount in
      elim (Result-cases (k.try_consume (k.chunk_head c) amount).0) [
        | inr (cause, f) ↦
            rw (e, f, try_consume)
              (
                omega (arith, checked-err amount (length (chunk_slice c)) (sym same ∙ f), shown),
                refl,
              )
        | inl (_, f) ↦
            let fits : amount ≤ length (chunk_slice c) =
              (reserves.check_iff amount (length (chunk_slice c))).0 (sym same ∙ f) in
            let (count, slice) = laws.try_consume-commit c amount f in
            let chunk = (k.commit (k.try_consume (k.chunk_head c) amount).1).1 in
            let le : amount ≤ r.remaining = omega (arith, slice-bound laws r c h e) in
            let run : try_consume r amount
                ≡ some (ok tt, record r { staged = some chunk; remaining = r.remaining - amount }) =
              ground (
                arith,
                count,
                settle_len-le laws (record r { staged = some chunk }) r.remaining amount le,
              ) in
            subst (Tries r amount) (sym run) (
              omega arith,
              Took-staged laws r c chunk amount h (non_empty-some laws r.staged c e) fits slice,
            )
      ]

  plain-Tries :
      (r : Retained) (p : Source.Cursor) (amount : ℕ)
      → Whole r
      → non_empty r.staged ≡ none
      → r.plain ≡ some p
      → p.len ≢ 0
      → Tries r amount (try_consume r amount)
  unfolding try_consume next commit current_try_consume Source.head Source.try_consume Source.commit
  plain-Tries r p amount h e f nz =
      let shown : length (front r) ≡ p.len =
        ap length (front-none laws r e)
        ∙ ap (λ q. length (plain_bytes q)) f
        ∙ length-unread p (subst PlainInRange f h.in_range) in
      elim (Result-cases (check amount p.len)) [
        | inr (cause, g) ↦
            let run : try_consume r amount ≡ some (err cause, r) = ground arith in
            subst (Tries r amount) (sym run) (omega (arith, checked-err amount p.len g), refl)
        | inl (_, g) ↦
            let fits : amount ≤ p.len = (reserves.check_iff amount p.len).0 g in
            let le : amount ≤ r.remaining = omega (arith, plain-bound laws r p h f) in
            let run : try_consume r amount
                ≡ some (
                  ok tt,
                  record r {
                    plain = some (record p { len = p.len - amount });
                    remaining = r.remaining - amount;
                  },
                ) =
              ground (
                arith,
                settle_len-le laws (record r { plain = some (record p { len = p.len - amount }) })
                    r.remaining amount le,
              ) in
            subst (Tries r amount) (sym run) (omega arith, Took-plain laws r p amount h e f fits)
      ]

  empty-Tries :
      (r : Retained) (amount : ℕ)
      → Whole r
      → non_empty r.staged ≡ none
      → length (plain_bytes r.plain) ≡ 0
      → Tries r amount (try_consume r amount)
  unfolding try_consume next Source.head
  empty-Tries r amount h e z =
      let shown : length (front r) ≡ 0 = ap length (front-none laws r e) ∙ z in
      let run : try_consume r amount ≡ some (check amount 0, r) = elim (Option-cases r.plain) [
        | inl f ↦ ground arith
        | inr (p, f) ↦
            let l = length-unread p (subst PlainInRange f h.in_range) in
            let z' : length (unread p) ≡ 0 = subst (λ q. length (plain_bytes q) ≡ 0) f z in
            ground arith
      ] in
      elim (Result-cases (check amount 0)) [
        | inr (cause, g) ↦
            subst (Tries r amount) (sym (run ∙ ap (λ c. some (c, r)) g))
              (omega (arith, checked-err amount 0 g), refl)
        | inl (_, g) ↦
            let none_left : amount ≡ 0 = omega (arith, (reserves.check_iff amount 0).0 g) in
            subst (Tries r amount) (sym (run ∙ ap (λ c. some (c, r)) g))
              (omega arith, rw none_left (record { whole = h; left = refl }))
      ]

  -- Consuming an exact count never faults. It succeeds if and only if the first segment has as many
  -- bytes, then takes them from the front and keeps the stream whole, and else changes nothing.
  pub try_consume-Tries :
      (r : Retained) (amount : ℕ) → Whole r → Tries r amount (try_consume r amount)
  try_consume-Tries r amount h = elim (Option-cases (non_empty r.staged)) [
    | inr (c, e) ↦ staged-Tries r c amount h e
    | inl e ↦ elim (Bool-cases (length (plain_bytes r.plain) == 0)) [
      | inl z ↦ empty-Tries r amount h e (ground arith)
      | inr nz ↦ elim (Option-cases r.plain) [
        | inl f ↦ absurd (ground arith)
        | inr (p, f) ↦
            let counted : length (plain_bytes r.plain) ≡ p.len =
              ap (λ q. length (plain_bytes q)) f
              ∙ length-unread p (subst PlainInRange f h.in_range) in
            plain-Tries r p amount h e f (ground arith)
      ]
    ]
  ]
