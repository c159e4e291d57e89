-- ===== src/Tls/Receive/Stream/Queue.antt =====
-- src/tls/receive/stream.rs and raw.rs: reading from a retained stream in any order of its calls.
use tls.Base.{
  ℕ, ◌≤◌, ◌<◌, ◌≡◌, ◌⊎◌, refl, ap, sym, subst, ◌∙◌, min, inl, inr, Option, none, some, Result, ok,
  err, List, [], ◌∷◌, ◌++◌, length, take, drop, arith, length-take, append_assoc, take-append-drop,
  take-of-short,
}
use tls.Outside.{Outside}
use tls.Outside.Laws.{ReserveLaws}
use tls.Outside.Chunks.{Chunks, ChunkLaws}
use tls.Tls.Receive.Stream.{Retained, as_ref, consume_max, try_consume}
use tls.Tls.Receive.Stream.Contents.{contents, Whole}
use tls.Tls.Receive.Stream.Consume.{front, Took, consume_max-Took}
use tls.Tls.Receive.Stream.Front.{empty_or_more, contents-front}
use tls.Tls.Receive.Stream.TryConsume.{Tries, try_consume-Tries}
use tls.Tls.Receive.Stream.View.{Views, consume}
use tls.Tls.Receive.Stream.Shown.{ViewLaws, next-Shows}
use tls.Tls.Receive.Stream.Raw.{RawLaws, consume-Took}

-- The calls that read from a stream: of at most a count, of exactly a count, and the raw one, with
-- a count that is admitted as far as the stream shows bytes.
pub data Call : Type 0 where
  at_most : ℕ → Call
  exactly : ℕ → Call
  admitted : ℕ → Call

module _ ⦃o : Outside⦄ ⦃k : Chunks⦄ ⦃v : Views⦄ where
  abbrev took_max : List ℕ → Option (ℕ × Retained) → Option (List ℕ × Retained)
  took_max seen none = none
  took_max seen (some (n, r)) = some (take n seen, r)

  abbrev took_all :
      ℕ → List ℕ → Option (Result o.ConsumeError (Unit {0}) × Retained) → Option (List ℕ × Retained)
  took_all n seen none = none
  took_all n seen (some (ok _, r)) = some (take n seen, r)
  took_all n seen (some (err _, r)) = some ([], r)

  abbrev took_raw : ℕ → List ℕ → Option Retained → Option (List ℕ × Retained)
  took_raw n seen none = none
  took_raw n seen (some r) = some (take n seen, r)

  -- A call after a look at what the stream shows, with the bytes that leave it.
  unfoldable fetch : Retained → Call → List ℕ → Option (List ℕ × Retained)
  fetch r (at_most max) seen = took_max seen (consume_max r max)
  fetch r (exactly n) seen = took_all n seen (try_consume r n)
  fetch r (admitted count) seen = let n = min count (length seen) in took_raw n seen (consume r n)

  unfoldable pub serve : Retained → Call → Option (List ℕ × Retained)
  unfolding fetch
  serve r call = elim (as_ref r) [ none ↦ none | some seen ↦ fetch r call seen ]

  -- The calls in order, with the bytes that left the stream by all of them.
  unfoldable pub run : Retained → List Call → Option (List ℕ × Retained)
  run r [] = some ([], r)
  run r (call ∷ calls) = elim (serve r call) [
    | none ↦ none
    | some (bytes, r') ↦ elim (run r' calls) [
      | none ↦ none
      | some (more, r'') ↦ some (bytes ++ more, r'')
    ]
  ]

-- How many bytes leave a queue by a call: of at most a count some, unless none are asked for or the
-- queue is empty, and of exactly a count all of them or none.
abbrev pub Answers : Call → List ℕ → List ℕ → Type 0
Answers (at_most max) queue gone =
    (length gone ≤ max) × ((0 < length gone) ⊎ ((max ≡ 0) ⊎ (queue ≡ [])))
Answers (exactly n) queue gone = (length gone ≡ n) ⊎ (gone ≡ [])
Answers (admitted count) queue gone =
    (length gone ≤ count) × ((0 < length gone) ⊎ ((count ≡ 0) ⊎ (queue ≡ [])))

-- A queue of bytes, from which calls take at the front.
pub data Pulls : List ℕ → List Call → List ℕ → List ℕ → Type 0 where
  stop : (queue : List ℕ) → Pulls queue [] [] queue
  pull :
      {call : Call} {calls : List Call} {more rest : List ℕ} (gone queue : List ℕ)
      → Answers call (gone ++ queue) gone
      → Pulls queue calls more rest
      → Pulls (gone ++ queue) (call ∷ calls) (gone ++ more) rest

pub Pulls-order :
    {queue gone rest : List ℕ} {calls : List Call}
    → Pulls queue calls gone rest
    → gone ++ rest ≡ queue
Pulls-order (stop queue) = refl
Pulls-order (pull gone queue a p) = append_assoc gone _ _ ∙ ap (λ xs. gone ++ xs) (Pulls-order p)

module _ ⦃o : Outside⦄ ⦃k : Chunks⦄ (laws : ChunkLaws) where
  record Fetched (r : Retained) (call : Call) (gone : List ℕ) (r' : Retained) : Type 0 where
    whole : Whole r'
    in_order : contents r ≡ gone ++ contents r'
    answers : Answers call (contents r) gone

  Took-Fetched :
      (r r' : Retained) (n : ℕ) (call : Call)
      → n ≤ length (front r)
      → Took r n r'
      → Answers call (contents r) (take n (front r))
      → Fetched r call (take n (front r)) r'
  Took-Fetched r r' n call le t a =
      let (rest, e, _) = contents-front laws r in
      record {
        whole = t.whole;
        in_order =
            sym (take-append-drop n (contents r))
            ∙ ap (λ xs. xs ++ drop n (contents r))
                (ap (take n) e ∙ take-of-short n (front r) rest le)
            ∙ ap (λ xs. take n (front r) ++ xs) (sym t.left);
        answers = a;
      }

  -- At most a count of the first segment answers for the contents.
  front-Answers :
      (r : Retained) (max : ℕ)
      → Answers (at_most max) (contents r) (take (min max (length (front r))) (front r))
  front-Answers r max =
      let (rest, e, some_left) = contents-front laws r in
      let gone = take (min max (length (front r))) (front r) in
      let l : length gone ≡ min max (length (front r)) =
        length-take (min max (length (front r))) (front r) ∙ omega arith in
      (
        omega arith,
        elim some_left [
          | inr bare ↦ inr (inr bare)
          | inl more ↦ elim (empty_or_more gone) [
            | inl taken ↦ inl taken
            | inr bare ↦ inr (inl (omega (arith, ap length bare)))
          ]
        ],
      )

module _ ⦃o : Outside⦄ ⦃k : Chunks⦄ ⦃v : Views⦄ (laws : ChunkLaws) (reserves : ReserveLaws)
    (views : ViewLaws) (raws : RawLaws) where
  Tries-Fetched :
      (r : Retained) (n : ℕ) (t : Option (Result o.ConsumeError (Unit {0}) × Retained))
      → Whole r
      → Tries r n t
      → (gone : List ℕ) × (r' : Retained) × (took_all n (front r) t ≡ some (gone, r'))
        × Fetched laws r (exactly n) gone r'
  Tries-Fetched r n none h t = absurd t
  Tries-Fetched r n (some (ok _, r')) h (le, t) = (
    take n (front r),
    r',
    refl,
    Took-Fetched laws r r' n (exactly n) le t (inl (length-take n (front r) ∙ omega arith)),
  )
  Tries-Fetched r n (some (err _, r')) h (lt, e) =
      ([], r', refl, rw e (record { whole = h; in_order = refl; answers = inr refl }))

  fetch-Fetched :
      (r : Retained) (call : Call)
      → Whole r
      → (gone : List ℕ) × (r' : Retained) × (fetch r call (front r) ≡ some (gone, r'))
        × Fetched laws r call gone r'
  unfolding fetch
  fetch-Fetched r (at_most max) h =
      let (r', ran, t) = consume_max-Took laws r max h in
      let n = min max (length (front r)) in
      (
        take n (front r),
        r',
        ap (took_max (front r)) ran,
        Took-Fetched laws r r' n (at_most max) (omega arith) t (front-Answers laws r max),
      )
  fetch-Fetched r (exactly n) h =
      Tries-Fetched r n (try_consume r n) h (try_consume-Tries laws reserves r n h)
  fetch-Fetched r (admitted count) h =
      let n = min count (length (front r)) in
      let (r', ran, t) = consume-Took laws raws r n h (omega arith) in
      (
        take n (front r),
        r',
        ap (took_raw n (front r)) ran,
        Took-Fetched laws r r' n (admitted count) (omega arith) t (front-Answers laws r count),
      )

  serve-Fetched :
      (r : Retained) (call : Call)
      → Whole r
      → (gone : List ℕ) × (r' : Retained) × (serve r call ≡ some (gone, r'))
        × Fetched laws r call gone r'
  unfolding serve
  serve-Fetched r call h = rw ((next-Shows laws views r h).by_ref, serve) (fetch-Fetched r call h)

  -- Reading a whole stream by any calls in any order never faults, and is taking the bytes that it
  -- holds from the front of a queue: each call takes what it may of the oldest bytes, and the stream
  -- left is whole and holds those not taken, in order.
  pub run-Pulls :
      (r : Retained) (calls : List Call)
      → Whole r
      → (gone : List ℕ) × (r' : Retained) × (run r calls ≡ some (gone, r'))
        × Whole r'
        × Pulls (contents r) calls gone (contents r')
  unfolding run
  run-Pulls r [] h = ([], r, refl, h, stop (contents r))
  run-Pulls r (call ∷ calls) h =
      let (gone, r', served, f) = serve-Fetched r call h in
      let (more, r'', ran, h', p) = run-Pulls r' calls f.whole in
      (
        gone ++ more,
        r'',
        rw (served, ran, run) refl,
        h',
        subst (λ q. Pulls q (call ∷ calls) (gone ++ more) (contents r'')) (sym f.in_order)
            (pull gone (contents r') (subst (λ q. Answers call q gone) f.in_order f.answers) p),
      )
