-- ===== src/Tls/Waiters/Woken.antt =====
-- Who is retried when a slot is announced.
use tls.Base.{ℕ, ◌+◌, ◌≡◌, ◌⊎◌, refl, inl, inr, Option-cases, List, [], ◌∷◌}
use tls.Tls.Waiters.{Resource, Lanes, retried, Queue, take_waiter, wake}
use tls.Tls.Waiters.Waits.{headed, is_one}
use tls.Tls.Waiters.Turns.{TurnLaws}

module _ ⦃l : Lanes⦄ (laws : TurnLaws) where
  open l use {Held, pop_front}
  open laws use {lane}

  -- The credit that has waited longest in a lane is retried and leaves it, and the other lane stays;
  -- nothing changes if the lane is empty.
  abbrev pub Retries : Resource → Queue → Queue → Type 0
  Retries kind q q' =
      ((lane kind q.waiters ≡ []) × (q' ≡ q))
      ⊎ ((h : Held) × ((k : Resource) → lane k q.waiters ≡ headed kind k h (lane k q'.waiters))
          × (q'.fates ≡ retried h ∷ q.fates))

  -- So for each of the kinds, in order.
  abbrev pub Woken : List Resource → Queue → Queue → Type 0
  Woken [] q q' = q' ≡ q
  Woken (kind ∷ kinds) q q' = (between : Queue) × Retries kind q between × Woken kinds between q'

  pub wake-Retries : (q : Queue) (kind : Resource) → Retries kind q (wake q kind)
  unfolding wake take_waiter
  wake-Retries q kind = elim (Option-cases (pop_front kind q.waiters)) [
    | inl e ↦ rw (e, wake, take_waiter) (inl (laws.pop_front-none kind q.waiters e, refl))
    | inr ((h, rest), e) ↦
        rw (e, wake, take_waiter) (inr (h, (λ k. laws.pop_front-headed kind k q.waiters e), refl))
  ]

-- How many of the kinds are `kind`.
unfoldable pub how_many : Resource → List Resource → ℕ
unfolding is_one
how_many kind [] = 0
how_many kind (k ∷ ks) = is_one k kind + how_many kind ks
