-- ===== src/Tls/Waiters/Fated.antt =====
-- The credits that come to their end between two states of the queue.
use tls.Base.{
  ◌≡◌, refl, sym, ap, ◌∙◌, inl, inr, Option-cases, Result-cases, List, [], ◌∷◌, ◌++◌, append_assoc,
}
use tls.Tls.Waiters.{
  Lanes, Fate, claimed, retried, taken, cancelled, Queue, QueueCall, registers, takes, wakes, drops,
  cancels, register, take_waiter, wake, cancel, drop_registration, call, calls,
}
use tls.Tls.Waiters.Credits.{ends}

module _ ⦃l : Lanes⦄ where
  ends-append : (xs ys : List (Fate l.Held)) → ends (xs ++ ys) ≡ ends xs ++ ends ys
  unfolding ends
  ends-append [] ys = refl
  ends-append (claimed h ∷ xs) ys = ends-append xs ys
  ends-append (retried h ∷ xs) ys = ap (λ zs. h ∷ zs) (ends-append xs ys)
  ends-append (taken h ∷ xs) ys = ap (λ zs. h ∷ zs) (ends-append xs ys)
  ends-append (cancelled h ∷ xs) ys = ap (λ zs. h ∷ zs) (ends-append xs ys)

  -- From `q` to `q'` the credit `h` has come to its end.
  pub record Ended (h : l.Held) (q q' : Queue) : Type 0 where
    pub since : List (Fate l.Held)
    pub before : List l.Held
    pub behind : List l.Held
    pub all_fates : q'.fates ≡ since ++ q.fates
    pub ended : ends since ≡ before ++ h ∷ behind

  -- Fates are only added.
  abbrev pub Adds : Queue → Queue → Type 0
  Adds q q' = (new : List (Fate l.Held)) × (q'.fates ≡ new ++ q.fates)

  pub Adds-trans : (q q' q'' : Queue) → Adds q q' → Adds q' q'' → Adds q q''
  Adds-trans q q' q'' (new, e) (more, f) =
      (more ++ new, f ∙ ap (λ zs. more ++ zs) e ∙ sym (append_assoc more new q.fates))

  pub Ended-Adds : (h : l.Held) (q q' q'' : Queue) → Ended h q q' → Adds q' q'' → Ended h q q''
  unfolding ends
  Ended-Adds h q q' q'' t (more, f) = record {
    since = more ++ t.since;
    before = ends more ++ t.before;
    behind = t.behind;
    all_fates = f ∙ ap (λ zs. more ++ zs) t.all_fates ∙ sym (append_assoc more t.since q.fates);
    ended =
        ends-append more t.since
        ∙ ap (λ zs. ends more ++ zs) t.ended
        ∙ sym (append_assoc (ends more) t.before (h ∷ t.behind));
  }

  pub Adds-Ended : (h : l.Held) (q q' q'' : Queue) → Adds q q' → Ended h q' q'' → Ended h q q''
  Adds-Ended h q q' q'' (new, e) t = record {
    since = t.since ++ new;
    before = t.before;
    behind = t.behind ++ ends new;
    all_fates = t.all_fates ∙ ap (λ zs. t.since ++ zs) e ∙ sym (append_assoc t.since new q.fates);
    ended =
        ends-append t.since new
        ∙ ap (λ zs. zs ++ ends new) t.ended
        ∙ append_assoc t.before (h ∷ t.behind) (ends new);
  }

  -- The ends that a single fate may be.
  abbrev pub IsEnd : (Fate l.Held) → l.Held → Type 0
  IsEnd f g = ends (f ∷ []) ≡ g ∷ []

  pub single_end :
      (h g : l.Held) (q : Queue) (f : Fate l.Held) (w : l.Fifo)
      → IsEnd f g
      → g ≡ h
      → Ended h q (record { waiters = w; fates = f ∷ q.fates })
  single_end h g q f w e same_one = record {
    since = f ∷ [];
    before = [];
    behind = [];
    all_fates = refl;
    ended = e ∙ ap (λ x. x ∷ []) same_one;
  }

  pub call-Adds : (q : Queue) (c : QueueCall) → Adds q (call q c)
  unfolding call register take_waiter wake cancel drop_registration
  call-Adds q (registers kind g) =
      elim (Result-cases (l.insert kind q.waiters (l.slot (l.id g)) g)) [
        | inr (x, e) ↦ rw (e, call, register) ([], refl)
        | inl (w, e) ↦ rw (e, call, register) (claimed g ∷ [], refl)
      ]
  call-Adds q (takes kind) = elim (Option-cases (l.pop_front kind q.waiters)) [
    | inl e ↦ rw (e, call, take_waiter) ([], refl)
    | inr ((g, w), e) ↦ rw (e, call, take_waiter) (taken g ∷ [], refl)
  ]
  call-Adds q (wakes kind) = elim (Option-cases (l.pop_front kind q.waiters)) [
    | inl e ↦ rw (e, call, wake, take_waiter) ([], refl)
    | inr ((g, w), e) ↦ rw (e, call, wake, take_waiter) (retried g ∷ [], refl)
  ]
  call-Adds q (drops kind) = elim (Option-cases (l.rollback kind q.waiters)) [
    | inl e ↦ rw (e, call, drop_registration) ([], refl)
    | inr ((g, w), e) ↦ rw (e, call, drop_registration) (cancelled g ∷ [], refl)
  ]
  call-Adds q (cancels target) =
      elim (Option-cases
        (l.remove_if q.waiters (l.slot target) (λ guard. l.same_id (l.id guard) target))) [
          | inl e ↦ rw (e, call, cancel) ([], refl)
          | inr ((g, w), e) ↦ rw (e, call, cancel) (cancelled g ∷ [], refl)
        ]

  pub calls-Adds : (q : Queue) (cs : List QueueCall) → Adds q (calls q cs)
  unfolding calls
  calls-Adds q [] = ([], refl)
  calls-Adds q (c ∷ cs) =
      Adds-trans q (call q c) (calls (call q c) cs) (call-Adds q c) (calls-Adds (call q c) cs)
