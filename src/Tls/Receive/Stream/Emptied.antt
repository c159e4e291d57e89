-- ===== src/Tls/Receive/Stream/Emptied.antt =====
-- Reading a retained stream to its end.
use tls.Base.{
  ℕ, ◌-◌, ◌≤◌, ◌<◌, ◌≡◌, refl, ap, sym, ◌∙◌, inl, inr, some, List, [], ◌∷◌, ◌++◌, length, arith,
  length-append, append-nil,
}
use tls.Outside.{Outside}
use tls.Outside.Laws.{ReserveLaws}
use tls.Outside.Chunks.{Chunks, ChunkLaws}
use tls.Tls.Receive.Stream.{Retained}
use tls.Tls.Receive.Stream.Contents.{contents, Whole}
use tls.Tls.Receive.Stream.View.{Views, stream_len}
use tls.Tls.Receive.Stream.Shown.{ViewLaws}
use tls.Tls.Receive.Stream.Raw.{RawLaws}
use tls.Tls.Receive.Stream.Queue.{
  Call, at_most, exactly, admitted, Answers, Pulls, stop, pull, Pulls-order, run, run-Pulls,
}

-- The calls that ask for some bytes and that take fewer if there are fewer.
abbrev pub Asks : Call → Type 0
Asks (at_most max) = 0 < max
Asks (exactly n) = ⊥
Asks (admitted count) = 0 < count

abbrev pub Asking : List Call → Type 0
Asking [] = Unit
Asking (call ∷ calls) = Asks call × Asking calls

Asks-more :
    (call : Call) (gone queue : List ℕ)
    → Asks call
    → Answers call (gone ++ queue) gone
    → length queue ≤ length (gone ++ queue) - 1
Asks-more (at_most max) gone queue a (_, inl more) = omega (arith, length-append gone queue)
Asks-more (at_most max) gone queue a (_, inr (inl nil)) = absurd (omega arith)
Asks-more (at_most max) gone queue a (_, inr (inr bare)) =
    omega (arith, length-append gone queue, ap length bare)
Asks-more (exactly n) gone queue a b = absurd a
Asks-more (admitted max) gone queue a (_, inl more) = omega (arith, length-append gone queue)
Asks-more (admitted max) gone queue a (_, inr (inl nil)) = absurd (omega arith)
Asks-more (admitted max) gone queue a (_, inr (inr bare)) =
    omega (arith, length-append gone queue, ap length bare)

pub Pulls-short :
    {queue gone rest : List ℕ} {calls : List Call}
    → Pulls queue calls gone rest
    → Asking calls
    → length rest ≤ length queue - length calls
Pulls-short (stop queue) a = omega arith
Pulls-short (pull {call = call} gone queue b p) (a, more) =
    omega (arith, Asks-more call gone queue a b, Pulls-short p more)

nil_of : (xs : List ℕ) → length xs ≤ 0 → xs ≡ []
nil_of [] h = refl
nil_of (x ∷ xs) h = absurd (omega arith)

module _ ⦃o : Outside⦄ ⦃k : Chunks⦄ ⦃v : Views⦄ (laws : ChunkLaws) (reserves : ReserveLaws)
    (views : ViewLaws) (raws : RawLaws) where
  -- As many calls for some bytes as a whole stream has bytes empty it, and what they take is all
  -- that it held, in order.
  pub run-empties :
      (r : Retained) (calls : List Call)
      → Whole r
      → Asking calls
      → stream_len r ≤ length calls
      → (r' : Retained) × (run r calls ≡ some (contents r, r'))
        × (stream_len r' ≡ 0)
        × (contents r' ≡ [])
  run-empties r calls h a le =
      let (gone, r', ran, h', p) = run-Pulls laws reserves views raws r calls h in
      let bare : contents r' ≡ [] =
        nil_of (contents r') (omega (arith, Pulls-short p a, h.counted)) in
      let all : gone ≡ contents r =
        sym (append-nil gone) ∙ ap (λ xs. gone ++ xs) (sym bare) ∙ Pulls-order p in
      (r', ran ∙ ap (λ xs. some (xs, r')) all, h'.counted ∙ ap length bare, bare)
