-- ===== src/Examples/Waiting.antt =====
-- Waiters in the small model, each lane oldest first.
use tls.Base.{
  ℕ, ◌≡◌, ◌==◌, refl, ap, ◌∙◌, subst, inl, inr, Bool, Bool-cases, Option-cases, true, false, Option,
  none, some, Result, ok, List, [], ◌∷◌, ◌++◌, is_nil, arith,
}
use tls.Tls.Waiters.{
  Resource, recv, handshake_egress, Lanes, Queue, QueueCall, registers, takes, wakes, drops,
  cancels, calls,
}
use tls.Tls.Waiters.Waits.{joined, headed, Without, same, out, is_one}
use tls.Tls.Waiters.Fated.{Ended}
use tls.Tls.Waiters.Turns.{TurnLaws, pops, turns, calls-Ended}

pub record Line : Type 0 where
  pub receiving : List ℕ
  pub sending : List ℕ

abbrev lane_of : Resource → Line → List ℕ
lane_of recv f = f.receiving
lane_of handshake_egress f = f.sending

abbrev with_lane : Resource → Line → List ℕ → Line
with_lane recv f xs = record f { receiving = xs }
with_lane handshake_egress f xs = record f { sending = xs }

abbrev line_insert : Resource → Line → ℕ → ℕ → Result (Unit {0}) Line
line_insert recv f i h = ok (record f { receiving = f.receiving ++ (h ∷ []) })
line_insert handshake_egress f i h = ok (record f { sending = f.sending ++ (h ∷ []) })

abbrev first_of : List ℕ → Option (ℕ × List ℕ)
first_of [] = none
first_of (x ∷ xs) = some (x, xs)

abbrev last_of : List ℕ → Option (ℕ × List ℕ)
last_of [] = none
last_of (x ∷ xs) = elim (last_of xs) [ none ↦ some (x, []) | some (y, ys) ↦ some (y, x ∷ ys) ]

abbrev found_in : (ℕ → Bool) → List ℕ → Option (ℕ × List ℕ)
found_in t [] = none
found_in t (x ∷ xs) =
    let rest = found_in t xs in
    elim (t x) [
      | true ↦ some (x, xs)
      | false ↦ elim rest [ none ↦ none | some (y, ys) ↦ some (y, x ∷ ys) ]
    ]

abbrev put : Resource → Line → Option (ℕ × List ℕ) → Option (ℕ × Line)
put k f none = none
put k f (some (x, xs)) = some (x, with_lane k f xs)

abbrev line_remove : Line → (ℕ → Bool) → Option (ℕ × Line)
line_remove f t = elim (found_in t f.receiving) [
  | some (x, xs) ↦ some (x, record f { receiving = xs })
  | none ↦ put handshake_egress f (found_in t f.sending)
]

instance abbrev pub line_lanes : Lanes
line_lanes = record {
  Held = ℕ;
  Target = ℕ;
  EntryError = Unit {0};
  Fifo = Line;
  id = λ h. h;
  slot = λ i. i;
  same_id = λ i j. i == j;
  insert = line_insert;
  pop_front = λ k f. put k f (first_of (lane_of k f));
  is_empty = λ k f. is_nil (lane_of k f);
  remove_if = λ f i t. line_remove f t;
  rollback = λ k f. put k f (last_of (lane_of k f));
}

pub line_joined :
    (kind k : Resource) (f : Line) (i h : ℕ) {f' : Line}
    → line_insert kind f i h ≡ ok f'
    → lane_of k f' ≡ joined kind k (lane_of k f) h
line_joined recv recv f i h e = ground arith
line_joined recv handshake_egress f i h e = ground arith
line_joined handshake_egress recv f i h e = ground arith
line_joined handshake_egress handshake_egress f i h e = ground arith

pub no_first : (k : Resource) (f : Line) (xs : List ℕ) → put k f (first_of xs) ≡ none → xs ≡ []
no_first k f [] e = refl
no_first k f (x ∷ xs) e = absurd (ground arith)

first_headed :
    (kind k : Resource) (f : Line) (x : ℕ) (xs : List ℕ)
    → lane_of kind f ≡ x ∷ xs
    → lane_of k f ≡ headed kind k x (lane_of k (with_lane kind f xs))
first_headed recv recv f x xs e = e
first_headed recv handshake_egress f x xs e = refl
first_headed handshake_egress recv f x xs e = refl
first_headed handshake_egress handshake_egress f x xs e = e

pub line_headed :
    (kind k : Resource) (f : Line) (xs : List ℕ) {h : ℕ} {f' : Line}
    → lane_of kind f ≡ xs
    → put kind f (first_of xs) ≡ some (h, f')
    → lane_of k f ≡ headed kind k h (lane_of k f')
line_headed kind k f [] e p = absurd (ground arith)
line_headed kind k f (x ∷ xs) {h} {f'} e p =
    let one : x ≡ h = cc in
    let rest : with_lane kind f xs ≡ f' = cc in
    first_headed kind k f x xs e
    ∙ ap (λ y. headed kind k y (lane_of k (with_lane kind f xs))) one
    ∙ ap (λ g. headed kind k h (lane_of k g)) rest

Without-cons : (h x : ℕ) (xs ys : List ℕ) → Without h xs ys → Without h (x ∷ xs) (x ∷ ys)
Without-cons h x xs _ same = same
Without-cons h x xs _ (out before behind e) = out (x ∷ before) behind (ap (◌∷◌ x) e)

no_last : (xs : List ℕ) → last_of xs ≡ none → xs ≡ []
no_last [] e = refl
no_last (x ∷ xs) e = elim (Option-cases (last_of xs)) [
  | inl f ↦ absurd (ground arith)
  | inr ((y, ys), f) ↦ absurd (ground arith)
]

taken_from :
    {h x : ℕ} {xs ys zs : List ℕ}
    → Without x xs ys
    → ◌≡◌ {A = Option (ℕ × List ℕ)} (some (x, ys)) (some (h, zs))
    → Without h xs zs
taken_from {h} {x} {xs} {ys} {zs} w e =
    let one : x ≡ h = cc in
    let rest : ys ≡ zs = cc in subst (λ n. Without n xs zs) one (subst (Without x xs) rest w)

pub last-Without : (xs : List ℕ) {h : ℕ} {ys : List ℕ} → last_of xs ≡ some (h, ys) → Without h xs ys
last-Without [] e = absurd (ground arith)
last-Without (x ∷ xs) e = elim (Option-cases (last_of xs)) [
  | inl f ↦ taken_from (out [] [] (ap (◌∷◌ x) (no_last xs f))) (ground arith)
  | inr ((y, ys), f) ↦ taken_from (Without-cons y x xs ys (last-Without xs f)) (ground arith)
]

found-Without :
    (t : ℕ → Bool) (xs : List ℕ) {h : ℕ} {ys : List ℕ}
    → found_in t xs ≡ some (h, ys)
    → Without h xs ys
found-Without t [] e = absurd (ground arith)
found-Without t (x ∷ xs) e = elim (Bool-cases (t x)) [
  | inl f ↦ taken_from (out [] xs refl) (ground arith)
  | inr f ↦ elim (Option-cases (found_in t xs)) [
    | inl g ↦ absurd (ground arith)
    | inr ((y, ys), g) ↦ taken_from (Without-cons y x xs ys (found-Without t xs g)) (ground arith)
  ]
]

lane-Without :
    (kind k : Resource) (f : Line) (x : ℕ) (xs : List ℕ)
    → Without x (lane_of kind f) xs
    → Without x (lane_of k f) (lane_of k (with_lane kind f xs))
lane-Without recv recv f x xs w = w
lane-Without recv handshake_egress f x xs w = same
lane-Without handshake_egress recv f x xs w = same
lane-Without handshake_egress handshake_egress f x xs w = w

pub put-Without :
    (kind k : Resource) (f : Line) (r : Option (ℕ × List ℕ)) {h : ℕ} {f' : Line}
    → ((x : ℕ) (xs : List ℕ) → r ≡ some (x, xs) → Without x (lane_of kind f) xs)
    → put kind f r ≡ some (h, f')
    → Without h (lane_of k f) (lane_of k f')
put-Without kind k f none w e = absurd (ground arith)
put-Without kind k f (some (x, xs)) {h} {f'} w e =
    let one : x ≡ h = cc in
    let rest : with_lane kind f xs ≡ f' = cc in
    subst (λ n. Without n (lane_of k f) (lane_of k f')) one
      (subst (λ g. Without x (lane_of k f) (lane_of k g)) rest
        (lane-Without kind k f x xs (w x xs refl)))

pub remove-Without :
    (k : Resource) (f : Line) (t : ℕ → Bool) {h : ℕ} {f' : Line}
    → line_remove f t ≡ some (h, f')
    → Without h (lane_of k f) (lane_of k f')
remove-Without k f t {h} {f'} e = elim (Option-cases (found_in t f.receiving)) [
  | inl g ↦
      put-Without handshake_egress k f (found_in t f.sending)
        (λ x xs p. found-Without t f.sending p) (ground arith)
  | inr ((y, ys), g) ↦
      put-Without recv k f (found_in t f.receiving) (λ x xs p. found-Without t f.receiving p)
        (ground arith)
]

abbrev pub line_turns : TurnLaws
line_turns = record {
  lane = lane_of;
  insert-joined = line_joined;
  pop_front-none = λ k f e. no_first k f (lane_of k f) e;
  pop_front-headed = λ kind k f e. line_headed kind k f (lane_of kind f) refl e;
  remove_if-Without = λ k f i t e. remove-Without k f t e;
  rollback-Without = λ kind k f e.
      put-Without kind k f (last_of (lane_of kind f)) (λ x xs p. last-Without (lane_of kind f) p) e;
}

-- A queue in which 7 waits behind two others.
abbrev busy : Queue
busy = record { waiters = record { receiving = 3 ∷ 5 ∷ 7 ∷ []; sending = 2 ∷ [] }; fates = [] }

abbrev history : List QueueCall
history =
    wakes recv
    ∷ registers recv 9
    ∷ takes handshake_egress
    ∷ cancels 5
    ∷ registers handshake_egress 1
    ∷ drops handshake_egress
    ∷ takes recv
    ∷ wakes recv
    ∷ []

calls-Ended_example : Ended 7 busy (calls busy history)
unfolding turns pops is_one
calls-Ended_example =
    calls-Ended line_turns 7 recv 2 busy history
      (record { before = 3 ∷ 5 ∷ []; behind = []; found = refl; turn = omega arith }) (omega arith)
