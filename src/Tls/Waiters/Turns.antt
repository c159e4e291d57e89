-- ===== src/Tls/Waiters/Turns.antt =====
-- The order of the waiters, and the turn of each.
use tls.Base.{
  ℕ, ◌+◌, ◌-◌, ◌≤◌, ◌<◌, ◌≡◌, ◌⊎◌, refl, sym, ◌∙◌, inl, inr, Option-cases, Result-cases, Bool, none,
  some, ok, List, [], ◌∷◌, ◌++◌, arith, subst,
}
use tls.Tls.Waiters.{
  Resource, recv, handshake_egress, Lanes, Fate, claimed, retried, taken, cancelled, Queue,
  QueueCall, registers, takes, wakes, drops, cancels, register, take_waiter, wake, cancel,
  drop_registration, call, calls,
}
use tls.Tls.Waiters.Credits.{ends}
use tls.Tls.Waiters.Waits.{
  joined, headed, Without, Waits, Waits-joined, kept_place, is_one, Waits-headed, Waits-Without,
  some_entry,
}
use tls.Tls.Waiters.Fated.{Ended, Adds, Ended-Adds, Adds-Ended, IsEnd, single_end, calls-Adds}

module _ ⦃l : Lanes⦄ where
  open l use {Held, Fifo, insert, pop_front, remove_if, rollback}

  -- A lane is first in, first out, and a removal or a rollback takes one entry out of it.
  pub record TurnLaws : Type 0 where
    pub lane : Resource → Fifo → List Held
    pub insert-joined :
        (kind k : Resource) (f : Fifo) (i : ℕ) (h : Held) {f' : Fifo}
        → insert kind f i h ≡ ok f'
        → lane k f' ≡ joined kind k (lane k f) h
    pub pop_front-none : (kind : Resource) (f : Fifo) → pop_front kind f ≡ none → lane kind f ≡ []
    pub pop_front-headed :
        (kind k : Resource) (f : Fifo) {h : Held} {f' : Fifo}
        → pop_front kind f ≡ some (h, f')
        → lane k f ≡ headed kind k h (lane k f')
    pub remove_if-Without :
        (k : Resource) (f : Fifo) (i : ℕ) (t : Held → Bool) {h : Held} {f' : Fifo}
        → remove_if f i t ≡ some (h, f')
        → Without h (lane k f) (lane k f')
    pub rollback-Without :
        (kind k : Resource) (f : Fifo) {h : Held} {f' : Fifo}
        → rollback kind f ≡ some (h, f')
        → Without h (lane k f) (lane k f')

module _ ⦃l : Lanes⦄ where
  unfoldable pub pops : Resource → QueueCall → ℕ
  unfolding is_one
  pops k (registers kind credit) = 0
  pops k (takes kind) = is_one kind k
  pops k (wakes kind) = is_one kind k
  pops k (drops kind) = 0
  pops k (cancels target) = 0

  unfoldable pub turns : Resource → List QueueCall → ℕ
  turns k [] = 0
  turns k (c ∷ cs) = pops k c + turns k cs

module _ ⦃l : Lanes⦄ (laws : TurnLaws) where
  open l use {Held, pop_front, insert, remove_if, rollback, slot, id, same_id}
  open laws use {lane}

  -- `h` has come to its end, or waits with fewer before it.
  abbrev Turned : Held → Resource → ℕ → ℕ → Queue → Queue → Type 0
  Turned h k n popped q q' =
      Ended h q q' ⊎ (Adds q q' × (popped ≤ n) × Waits h (n - popped) (lane k q'.waiters))

  as_before :
      (h : Held) (k : Resource) (n : ℕ) (q : Queue) (new : List (Fate Held)) (w : l.Fifo)
      → Waits h n (lane k w)
      → Turned h k n 0 q (record { waiters = w; fates = new ++ q.fates })
  as_before h k n q new w v =
      let (le, v') = kept_place h n (lane k w) v in inr ((new, refl), le, v')

  unpopped :
      (h : Held) (kind k : Resource) (n : ℕ) (q : Queue)
      → pop_front kind q.waiters ≡ none
      → Waits h n (lane k q.waiters)
      → Turned h k n (is_one kind k) q q
  unfolding is_one
  unpopped h recv recv n q e w =
      absurd (some_entry h w.before w.behind (sym (laws.pop_front-none recv q.waiters e) ∙ w.found))
  unpopped h recv handshake_egress n q e w = as_before h handshake_egress n q [] q.waiters w
  unpopped h handshake_egress recv n q e w = as_before h recv n q [] q.waiters w
  unpopped h handshake_egress handshake_egress n q e w = absurd (
      some_entry h w.before w.behind
        (sym (laws.pop_front-none handshake_egress q.waiters e) ∙ w.found))

  popped :
      (h g : Held) (kind k : Resource) (n : ℕ) (q : Queue) (f : Fate Held) (w : l.Fifo)
      → IsEnd f g
      → pop_front kind q.waiters ≡ some (g, w)
      → Waits h n (lane k q.waiters)
      → Turned h k n (is_one kind k) q (record { waiters = w; fates = f ∷ q.fates })
  popped h g kind k n q f w is_end e v =
      elim (Waits-headed kind k h g n (lane k w)
        (subst (Waits h n) (laws.pop_front-headed kind k q.waiters e) v)) [
          | inl it ↦ inl (single_end h g q f w is_end it)
          | inr (le, v') ↦ inr ((f ∷ [], refl), le, v')
        ]

  withdrawn :
      (h g : Held) (k : Resource) (n : ℕ) (q : Queue) (w : l.Fifo)
      → Without g (lane k q.waiters) (lane k w)
      → Waits h n (lane k q.waiters)
      → Turned h k n 0 q (record { waiters = w; fates = cancelled g ∷ q.fates })
  unfolding ends
  withdrawn h g k n q w gone v = elim (Waits-Without h g n _ _ gone v) [
    | inl it ↦ inl (single_end h g q (cancelled g) w refl it)
    | inr v' ↦ as_before h k n q (cancelled g ∷ []) w v'
  ]

  call-Turned :
      (h : Held) (k : Resource) (n : ℕ) (q : Queue) (c : QueueCall)
      → Waits h n (lane k q.waiters)
      → Turned h k n (pops k c) q (call q c)
  unfolding call pops register take_waiter wake cancel drop_registration ends
  call-Turned h k n q (registers kind g) v =
      elim (Result-cases (insert kind q.waiters (slot (id g)) g)) [
        | inr (x, e) ↦ rw (e, call, register) (as_before h k n q [] q.waiters v)
        | inl (w, e) ↦
            rw (e, call, register)
              (as_before h k n q (claimed g ∷ []) w (
                subst (Waits h n) (sym (laws.insert-joined kind k q.waiters (slot (id g)) g e))
                  (Waits-joined kind k h g n (lane k q.waiters) v)))
      ]
  call-Turned h k n q (takes kind) v = elim (Option-cases (pop_front kind q.waiters)) [
    | inl e ↦ rw (e, call, take_waiter) (unpopped h kind k n q e v)
    | inr ((g, w), e) ↦ rw (e, call, take_waiter) (popped h g kind k n q (taken g) w refl e v)
  ]
  call-Turned h k n q (wakes kind) v = elim (Option-cases (pop_front kind q.waiters)) [
    | inl e ↦ rw (e, call, wake, take_waiter) (unpopped h kind k n q e v)
    | inr ((g, w), e) ↦
        rw (e, call, wake, take_waiter) (popped h g kind k n q (retried g) w refl e v)
  ]
  call-Turned h k n q (drops kind) v = elim (Option-cases (rollback kind q.waiters)) [
    | inl e ↦ rw (e, call, drop_registration) (as_before h k n q [] q.waiters v)
    | inr ((g, w), e) ↦
        rw (e, call, drop_registration)
          (withdrawn h g k n q w (laws.rollback-Without kind k q.waiters e) v)
  ]
  call-Turned h k n q (cancels target) v =
      elim (Option-cases (remove_if q.waiters (slot target) (λ guard. same_id (id guard) target))) [
        | inl e ↦ rw (e, call, cancel) (as_before h k n q [] q.waiters v)
        | inr ((g, w), e) ↦
            rw (e, call, cancel)
              (withdrawn h g k n q w (laws.remove_if-Without k q.waiters (slot target) _ e) v)
      ]

  -- Whoever waits in a lane comes to its turn, whatever else happens. If `n` others stand before it,
  -- then over any history in which more than `n` credits are to be taken from the front of its lane,
  -- its credit is retried, taken or cancelled.
  pub calls-Ended :
      (h : Held) (k : Resource) (n : ℕ) (q : Queue) (cs : List QueueCall)
      → Waits h n (lane k q.waiters)
      → n < turns k cs
      → Ended h q (calls q cs)
  unfolding calls turns
  calls-Ended h k n q [] v lt = absurd (omega arith)
  calls-Ended h k n q (c ∷ cs) v lt = elim (call-Turned h k n q c v) [
    | inl done_now ↦
        Ended-Adds h q (call q c) (calls (call q c) cs) done_now (calls-Adds (call q c) cs)
    | inr (added, le, v') ↦
        Adds-Ended h q (call q c) (calls (call q c) cs) added
          (calls-Ended h k (n - pops k c) (call q c) cs v' (omega (arith, lt, le)))
  ]
