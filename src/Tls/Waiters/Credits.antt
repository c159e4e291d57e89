-- ===== src/Tls/Waiters/Credits.antt =====
-- No credit is lost or used twice.
use tls.Base.{
  ℕ, suc, ◌+◌, ◌≡◌, inl, inr, Option-cases, Result-cases, Bool, true, false, some, ok, List, [],
  ◌∷◌, arith,
}
use tls.Tls.Waiters.{
  Resource, Lanes, Fate, claimed, retried, taken, cancelled, Queue, QueueCall, registers, takes,
  wakes, drops, cancels, register, take_waiter, wake, cancel, drop_registration, call, calls,
}

-- How many entries `p` holds of.
unfoldable pub tally : {A : Type 0} → (A → Bool) → List A → ℕ
tally p [] = 0
tally p (x ∷ xs) = let rest = tally p xs in elim (p x) [ true ↦ suc rest | false ↦ rest ]

module _ ⦃l : Lanes⦄ where
  open l use {Held, Fifo, Target, EntryError, insert, pop_front, remove_if, rollback}

  -- The entries of a fifo, whatever their order: an insertion adds one, a removal takes one.
  pub record LaneLaws : Type 0 where
    pub waiting : Fifo → List Held
    pub insert-ok :
        (k : Resource) (f : Fifo) (i : ℕ) (h : Held) {f' : Fifo} (p : Held → Bool)
        → insert k f i h ≡ ok f'
        → tally p (waiting f') ≡ tally p (h ∷ waiting f)
    pub pop_front-some :
        (k : Resource) (f : Fifo) {h : Held} {f' : Fifo} (p : Held → Bool)
        → pop_front k f ≡ some (h, f')
        → tally p (waiting f) ≡ tally p (h ∷ waiting f')
    pub remove_if-some :
        (f : Fifo) (i : ℕ) (t : Held → Bool) {h : Held} {f' : Fifo} (p : Held → Bool)
        → remove_if f i t ≡ some (h, f')
        → tally p (waiting f) ≡ tally p (h ∷ waiting f')
    pub rollback-some :
        (k : Resource) (f : Fifo) {h : Held} {f' : Fifo} (p : Held → Bool)
        → rollback k f ≡ some (h, f')
        → tally p (waiting f) ≡ tally p (h ∷ waiting f')

  -- The credits that were claimed, and those that were retried, taken or cancelled since.
  unfoldable pub claims : List (Fate Held) → List Held
  claims [] = []
  claims (claimed h ∷ fs) = h ∷ claims fs
  claims (retried h ∷ fs) = claims fs
  claims (taken h ∷ fs) = claims fs
  claims (cancelled h ∷ fs) = claims fs

  unfoldable pub ends : List (Fate Held) → List Held
  ends [] = []
  ends (claimed h ∷ fs) = ends fs
  ends (retried h ∷ fs) = h ∷ ends fs
  ends (taken h ∷ fs) = h ∷ ends fs
  ends (cancelled h ∷ fs) = h ∷ ends fs

module _ ⦃l : Lanes⦄ (laws : LaneLaws) where
  open l use {Held, insert, pop_front, remove_if, rollback, slot, id, same_id}
  open laws use {waiting}

  -- Of the credits that `p` holds of, each one claimed waits or has come to one end.
  abbrev pub Balanced : (Held → Bool) → Queue → Type 0
  Balanced p q = tally p (claims q.fates) ≡ tally p (waiting q.waiters) + tally p (ends q.fates)

  register-Balanced :
      (p : Held → Bool) (q : Queue) (k : Resource) (h : Held)
      → Balanced p q
      → Balanced p (call q (registers k h))
  unfolding call register claims ends tally
  register-Balanced p q k h b = elim (Result-cases (insert k q.waiters (slot (id h)) h)) [
    | inr (e, f) ↦ rw (f, call, register) b
    | inl (w, f) ↦
        rw (f, call, register) (ground (arith, laws.insert-ok k q.waiters (slot (id h)) h p f))
  ]

  take-Balanced :
      (p : Held → Bool) (q : Queue) (k : Resource) → Balanced p q → Balanced p (call q (takes k))
  unfolding call take_waiter claims ends tally
  take-Balanced p q k b = elim (Option-cases (pop_front k q.waiters)) [
    | inl f ↦ rw (f, call, take_waiter) b
    | inr ((h, w), f) ↦
        rw (f, call, take_waiter) (ground (arith, laws.pop_front-some k q.waiters p f))
  ]

  wake-Balanced :
      (p : Held → Bool) (q : Queue) (k : Resource) → Balanced p q → Balanced p (wake q k)
  unfolding wake take_waiter claims ends tally
  wake-Balanced p q k b = elim (Option-cases (pop_front k q.waiters)) [
    | inl f ↦ rw (f, wake, take_waiter) b
    | inr ((h, w), f) ↦
        rw (f, wake, take_waiter) (ground (arith, laws.pop_front-some k q.waiters p f))
  ]

  drop-Balanced :
      (p : Held → Bool) (q : Queue) (k : Resource)
      → Balanced p q
      → Balanced p (drop_registration q k)
  unfolding drop_registration claims ends tally
  drop-Balanced p q k b = elim (Option-cases (rollback k q.waiters)) [
    | inl f ↦ rw (f, drop_registration) b
    | inr ((h, w), f) ↦
        rw (f, drop_registration) (ground (arith, laws.rollback-some k q.waiters p f))
  ]

  cancel-Balanced :
      (p : Held → Bool) (q : Queue) (i : l.Target) → Balanced p q → Balanced p (cancel q i)
  unfolding cancel claims ends tally
  cancel-Balanced p q i b =
      elim (Option-cases (remove_if q.waiters (slot i) (λ guard. same_id (id guard) i))) [
        | inl f ↦ rw (f, cancel) b
        | inr ((h, w), f) ↦
            rw (f, cancel) (ground (arith, laws.remove_if-some q.waiters (slot i) _ p f))
      ]

  call-Balanced :
      (p : Held → Bool) (q : Queue) (c : QueueCall) → Balanced p q → Balanced p (call q c)
  unfolding call
  call-Balanced p q (registers k h) b = register-Balanced p q k h b
  call-Balanced p q (takes k) b = take-Balanced p q k b
  call-Balanced p q (wakes k) b = wake-Balanced p q k b
  call-Balanced p q (drops k) b = drop-Balanced p q k b
  call-Balanced p q (cancels i) b = cancel-Balanced p q i b

  -- Over any history of calls every credit that was claimed is accounted for: it waits in the queue,
  -- or it was retried, taken or cancelled, once.
  pub calls-Balanced :
      (p : Held → Bool) (q : Queue) (cs : List QueueCall) → Balanced p q → Balanced p (calls q cs)
  unfolding calls
  calls-Balanced p q [] b = b
  calls-Balanced p q (c ∷ cs) b = calls-Balanced p (call q c) cs (call-Balanced p q c b)
