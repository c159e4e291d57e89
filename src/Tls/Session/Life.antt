-- ===== src/Tls/Session/Life.antt =====
-- Induction over the life of a connection: what each event keeps, a life keeps, and what the events
-- amount to adds up. A life returns.
use tls.Base.{
  ◌≡◌, inl, inr, Option-cases, Option, none, some, List, [], ◌∷◌, ◌++◌, subst, append_assoc,
  append-nil,
}
use tls.Outside.{Outside}
use tls.Outside.Progress.{Progress}
use tls.Outside.Vectored.{Vectored}
use tls.Outside.Slots.{Slots}
use tls.Outside.Chunks.{Chunks}
use tls.Tls.Waiters.{Lanes}
use tls.Tls.Session.{Session, Event, step, live}
use tls.Tls.Session.Rule.{After}
use tls.Tls.Session.Counts.{LifeLaws, Counts, send_count, receive_count, live-Counts}

module _ ⦃o : Outside⦄ ⦃s : Slots⦄ ⦃l : Lanes⦄ ⦃k : Chunks⦄ ⦃d : Progress⦄ ⦃v : Vectored⦄ where
  pub live-After :
      (Q : Session → Type 0)
      → ((st : Session) (e : Event) → Q st → After Q (step st e))
      → (st : Session) (es : List Event) → Q st
      → After Q (live st es)
  unfolding live
  live-After Q keep st [] h = h
  live-After Q keep st (e ∷ es) h =
      let next = keep st e h in
      elim (Option-cases (step st e)) [
        | inl f ↦ rw (f, live) tt
        | inr (st', f) ↦ rw (f, live) (live-After Q keep st' es (subst (After Q) f next))
      ]

  -- What the events of a life amount to, in order.
  unfoldable pub life_sum :
      {A : Type 0} → (Session → Event → List A) → Session → List Event → List A
  life_sum part st [] = []
  life_sum part st (e ∷ es) =
      part st e ++ elim (step st e) [ none ↦ [] | some st' ↦ life_sum part st' es ]

  -- A property of a session and of what its events have amounted to.
  pub live-sums :
      {A : Type 0} (part : Session → Event → List A) (Q : List A → Session → Type 0)
      → ((all : List A) (st : Session) (e : Event)
          → Q all st
          → After (Q (all ++ part st e)) (step st e))
      → (all : List A) (st : Session) (es : List Event) → Q all st
      → After (Q (all ++ life_sum part st es)) (live st es)
  unfolding live life_sum
  live-sums part Q keep all st [] h = rw append-nil h
  live-sums part Q keep all st (e ∷ es) h =
      let next = keep all st e h in
      elim (Option-cases (step st e)) [
        | inl f ↦ rw (f, live) tt
        | inr (st', f) ↦
            let rest =
              live-sums part Q keep (all ++ part st e) st' es
                (subst (After (Q (all ++ part st e))) f next) in
            rw (f, live, life_sum)
              (subst (λ xs. After (Q xs) (live st' es))
                (append_assoc all (part st e) (life_sum part st' es)) rest)
      ]

  -- What holds after a life that returns.
  pub after_life :
      (Q : Session → Type 0) {r : Option Session} {st : Session} → r ≡ some st → After Q r → Q st
  after_life Q e h = subst (After Q) e h

  pub live_returns :
      (laws : LifeLaws) (st : Session) (es : List Event) → (st' : Session) × (live st es ≡ some st')
  live_returns laws st es = elim (Option-cases (live st es)) [
    | inl e ↦ absurd (subst (Counts (send_count st) (receive_count st)) e (live-Counts laws st es))
    | inr r ↦ r
  ]
