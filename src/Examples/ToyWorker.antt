-- ===== src/Examples/ToyWorker.antt =====
-- The worker of the small model: pools that count their slots, waiting connections in two lists,
-- the latest first, and a role that sends first.
use tls.Base.{
  ℕ, zero, suc, ◌+◌, ◌≡◌, refl, Option-cases, inl, inr, Bool, true, false, Option, none, some,
  Result, ok, List, [], ◌∷◌, ◌++◌, is_nil, ◌==◌, leb, arith,
}
use tls.Examples.Toy.{ToyNative, toy}
use tls.Outside.Slots.{Slots, SlotLaws}
use tls.Tls.Waiters.{Resource, recv, handshake_egress, Lanes}
use tls.Tls.Waiters.Credits.{tally, LaneLaws}
use tls.Tls.Endpoint.Layout.{PoolLayouts}
use tls.Tls.Endpoint.Open.{Roles}
use tls.Tls.Endpoint.Open.Loans.{SessionLaws}

abbrev pub toy_borrow : ℕ → Option (List ℕ × ℕ)
toy_borrow zero = none
toy_borrow (suc n) = some ([], n)

-- A growing pool: the slots that are free of its limit, and those that it has allocated.
pub record ToyGrowing : Type 0 where
  pub free : ℕ
  pub limit : ℕ
  pub allocated : ℕ

abbrev pub toy_try_borrow : ToyGrowing → Result (Unit {0}) (Option (List ℕ × ToyGrowing))
toy_try_borrow p = elim p.free [ zero ↦ ok none | suc n ↦ ok (some ([], record p { free = n })) ]

instance abbrev pub toy_slots : Slots
toy_slots = record {
  Fixed = ℕ;
  Growing = ToyGrowing;
  borrow = toy_borrow;
  try_borrow = toy_try_borrow;
  fixed_available = λ p. p;
  growing_available = λ p. p.free;
  fixed_return = λ p. suc p;
  growing_return = λ p. record p { free = suc p.free };
}

toy_borrowed : (p : ℕ) {q : ℕ} {r : List ℕ} → toy_borrow p ≡ some (r, q) → p ≡ suc q
toy_borrowed zero e = cc
toy_borrowed (suc n) e = ground arith

toy_try_borrowed :
    (p : ToyGrowing) {q : ToyGrowing} {r : List ℕ}
    → toy_try_borrow p ≡ ok (some (r, q))
    → p.free ≡ suc q.free
toy_try_borrowed p {q} {r} e = ground (arith, e)

pub toy_slot_laws : SlotLaws
toy_slot_laws = record {
  borrow-available = λ {p} e. toy_borrowed p e;
  try_borrow-available = λ {p} e. toy_try_borrowed p e;
  fixed_return-available = λ p. refl;
  growing_return-available = λ p. refl;
}

pub record ToyFifo : Type 0 where
  pub receiving : List ℕ
  pub sending : List ℕ

abbrev pop_last : List ℕ → Option (ℕ × List ℕ)
pop_last [] = none
pop_last (x ∷ xs) = elim (pop_last xs) [ none ↦ some (x, []) | some (h, ys) ↦ some (h, x ∷ ys) ]

abbrev pop_first : (ℕ → Bool) → List ℕ → Option (ℕ × List ℕ)
pop_first t [] = none
pop_first t (x ∷ xs) = elim (t x) [ true ↦ some (x, xs) | false ↦ none ]

abbrev in_receiving : ToyFifo → Option (ℕ × List ℕ) → Option (ℕ × ToyFifo)
in_receiving f none = none
in_receiving f (some (h, xs)) = some (h, record f { receiving = xs })

abbrev in_sending : ToyFifo → Option (ℕ × List ℕ) → Option (ℕ × ToyFifo)
in_sending f none = none
in_sending f (some (h, xs)) = some (h, record f { sending = xs })

abbrev toy_insert : Resource → ToyFifo → ℕ → ℕ → Result (Unit {0}) ToyFifo
toy_insert recv f i h = ok (record f { receiving = h ∷ f.receiving })
toy_insert handshake_egress f i h = ok (record f { sending = h ∷ f.sending })

abbrev toy_pop_front : Resource → ToyFifo → Option (ℕ × ToyFifo)
toy_pop_front recv f = in_receiving f (pop_last f.receiving)
toy_pop_front handshake_egress f = in_sending f (pop_last f.sending)

abbrev toy_rollback : Resource → ToyFifo → Option (ℕ × ToyFifo)
toy_rollback recv f = in_receiving f (pop_first (λ _. true) f.receiving)
toy_rollback handshake_egress f = in_sending f (pop_first (λ _. true) f.sending)

abbrev pub toy_is_empty : Resource → ToyFifo → Bool
toy_is_empty recv f = is_nil f.receiving
toy_is_empty handshake_egress f = is_nil f.sending

instance abbrev pub toy_lanes : Lanes
toy_lanes = record {
  Held = ℕ;
  Target = ℕ;
  EntryError = Unit {0};
  Fifo = ToyFifo;
  id = λ h. h;
  slot = λ i. i;
  same_id = λ a b. a == b;
  insert = toy_insert;
  pop_front = toy_pop_front;
  is_empty = toy_is_empty;
  remove_if = λ f i t. in_receiving f (pop_first t f.receiving);
  rollback = toy_rollback;
}

tally-append : (p : ℕ → Bool) (xs ys : List ℕ) → tally p (xs ++ ys) ≡ tally p xs + tally p ys
unfolding tally
tally-append p [] ys = omega arith
tally-append p (x ∷ xs) ys = ground (arith, tally-append p xs ys)

pop_last-none : (xs : List ℕ) → pop_last xs ≡ none → xs ≡ []
pop_last-none [] e = refl
pop_last-none (x ∷ xs) e = elim (Option-cases (pop_last xs)) [
  | inl f ↦ ground arith
  | inr (_, f) ↦ ground arith
]

pop_last-tally :
    (p : ℕ → Bool) (xs : List ℕ) {h : ℕ} {ys : List ℕ}
    → pop_last xs ≡ some (h, ys)
    → tally p xs ≡ tally p (h ∷ ys)
unfolding tally
pop_last-tally p [] e = cc
pop_last-tally p (x ∷ xs) e = elim (Option-cases (pop_last xs)) [
  | inl f ↦ ground (arith, pop_last-none xs f)
  | inr ((h, ys), f) ↦ ground (arith, pop_last-tally p xs f)
]

pub pop_first-tally :
    (p t : ℕ → Bool) (xs : List ℕ) {h : ℕ} {ys : List ℕ}
    → pop_first t xs ≡ some (h, ys)
    → tally p xs ≡ tally p (h ∷ ys)
unfolding tally
pop_first-tally p t [] e = cc
pop_first-tally p t (x ∷ xs) e = ground arith

abbrev entries : ToyFifo → List ℕ
entries f = f.receiving ++ f.sending

pub in_receiving-tally :
    (p : ℕ → Bool) (f : ToyFifo) (o : Option (ℕ × List ℕ))
    → ((h : ℕ) (ys : List ℕ) → o ≡ some (h, ys) → tally p f.receiving ≡ tally p (h ∷ ys))
    → {h : ℕ} {f' : ToyFifo} → in_receiving f o ≡ some (h, f')
    → tally p (entries f) ≡ tally p (h ∷ entries f')
unfolding tally
in_receiving-tally p f none law e = ground arith
in_receiving-tally p f (some (h, ys)) law e =
    let l = law h ys refl in
    ground (arith, tally-append p f.receiving f.sending, tally-append p ys f.sending)

in_sending-tally :
    (p : ℕ → Bool) (f : ToyFifo) (o : Option (ℕ × List ℕ))
    → ((h : ℕ) (ys : List ℕ) → o ≡ some (h, ys) → tally p f.sending ≡ tally p (h ∷ ys))
    → {h : ℕ} {f' : ToyFifo} → in_sending f o ≡ some (h, f')
    → tally p (entries f) ≡ tally p (h ∷ entries f')
unfolding tally
in_sending-tally p f none law e = ground arith
in_sending-tally p f (some (h, ys)) law e =
    let l = law h ys refl in
    ground (arith, tally-append p f.receiving f.sending, tally-append p f.receiving ys)

pub toy_inserted :
    (k : Resource) (f : ToyFifo) (i h : ℕ) {f' : ToyFifo} (p : ℕ → Bool)
    → toy_insert k f i h ≡ ok f'
    → tally p (entries f') ≡ tally p (h ∷ entries f)
unfolding tally
toy_inserted recv f i h p e = ground (arith, tally-append p f.receiving f.sending)
toy_inserted handshake_egress f i h p e =
    ground (arith, tally-append p f.receiving f.sending, tally-append p f.receiving (h ∷ f.sending))

pub toy_popped :
    (k : Resource) (f : ToyFifo) {h : ℕ} {f' : ToyFifo} (p : ℕ → Bool)
    → toy_pop_front k f ≡ some (h, f')
    → tally p (entries f) ≡ tally p (h ∷ entries f')
toy_popped recv f p e = in_receiving-tally p f _ (λ _ _ d. pop_last-tally p f.receiving d) e
toy_popped handshake_egress f p e = in_sending-tally p f _ (λ _ _ d. pop_last-tally p f.sending d) e

pub toy_rolled_back :
    (k : Resource) (f : ToyFifo) {h : ℕ} {f' : ToyFifo} (p : ℕ → Bool)
    → toy_rollback k f ≡ some (h, f')
    → tally p (entries f) ≡ tally p (h ∷ entries f')
toy_rolled_back recv f p e =
    in_receiving-tally p f _ (λ _ _ d. pop_first-tally p (λ _. true) f.receiving d) e
toy_rolled_back handshake_egress f p e =
    in_sending-tally p f _ (λ _ _ d. pop_first-tally p (λ _. true) f.sending d) e

abbrev pub toy_lane_laws : LaneLaws
toy_lane_laws = record {
  waiting = λ f. entries f;
  insert-ok = λ k f i h p e. toy_inserted k f i h p e;
  pop_front-some = λ k f p e. toy_popped k f p e;
  remove_if-some =
      λ f i t p e. in_receiving-tally p f _ (λ _ _ d. pop_first-tally p t f.receiving d) e;
  rollback-some = λ k f p e. toy_rolled_back k f p e;
}

abbrev pub greeting : ToyNative
greeting = record {
  sealed = 9 ∷ 9 ∷ [];
  incoming = [];
  plain = [];
  accepted = [];
  handed = [];
  shaking = true;
}

abbrev pub toy_take : ℕ → Option ℕ
toy_take zero = none
toy_take (suc n) = some n

instance abbrev pub toy_roles : Roles
toy_roles = record {
  Config = Bool;
  send_on_open = true;
  open_role = λ c. ok greeting;
  Sessions = ℕ;
  take_session = toy_take;
  return_session = λ n. suc n;
}

pub toy_taken : (n : ℕ) {m : ℕ} → toy_take n ≡ some m → n ≡ suc m
toy_taken zero e = cc
toy_taken (suc n) e = ground arith

abbrev pub toy_session_laws : SessionLaws
toy_session_laws = record {
  free = λ n. n;
  take_session-some = λ {s} e. toy_taken s e;
  return_session-free = λ n. refl;
}

instance abbrev pub toy_layouts : PoolLayouts
toy_layouts = record {
  PoolLayout = ℕ;
  Cause = Unit {0};
  new_layout = λ n cap. ok n;
  slots = λ n. n;
  from_usize = λ top n. elim (leb n top) [ true ↦ some n | false ↦ none ];
}
