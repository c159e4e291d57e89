-- ===== src/Tls/Waiters/Waits.antt =====
-- Where one waits in a lane, and what becomes of its place when the lane changes.
use tls.Base.{
  ℕ, suc, ◌-◌, ◌≤◌, ◌≡◌, ◌⊎◌, sym, ap, ◌∙◌, inl, inr, List, [], ◌∷◌, ◌++◌, length, arith,
  append_assoc,
}
use tls.Tls.Waiters.{Resource, recv, handshake_egress}

-- What is in a lane once `kind` has got a new entry.
abbrev pub joined : {A : Type 0} → Resource → Resource → List A → A → List A
joined recv recv xs h = xs ++ (h ∷ [])
joined recv handshake_egress xs h = xs
joined handshake_egress recv xs h = xs
joined handshake_egress handshake_egress xs h = xs ++ (h ∷ [])

-- What was in a lane before `kind` gave its first entry.
abbrev pub headed : {A : Type 0} → Resource → Resource → A → List A → List A
headed recv recv h xs = h ∷ xs
headed recv handshake_egress h xs = xs
headed handshake_egress recv h xs = xs
headed handshake_egress handshake_egress h xs = h ∷ xs

-- A list from which `h` may have been taken out, wherever it was.
pub data Without {A : Type 0} (h : A) (xs : List A) : List A → Type 0 where
  same : Without h xs xs
  out : (before behind : List A) → xs ≡ before ++ h ∷ behind → Without h xs (before ++ behind)

-- `h` waits, behind at most `n` others.
pub record Waits {A : Type 0} (h : A) (n : ℕ) (xs : List A) : Type 0 where
  pub before : List A
  pub behind : List A
  pub found : xs ≡ before ++ h ∷ behind
  pub turn : length before ≤ n

Waits-append : {A : Type 0} (h : A) (n : ℕ) (xs ys : List A) → Waits h n xs → Waits h n (xs ++ ys)
Waits-append h n xs ys w = record {
  before = w.before;
  behind = w.behind ++ ys;
  found = ap (λ zs. zs ++ ys) w.found ∙ append_assoc w.before (h ∷ w.behind) ys;
  turn = w.turn;
}

pub Waits-joined :
    {A : Type 0} (kind k : Resource) (h g : A) (n : ℕ) (xs : List A)
    → Waits h n xs
    → Waits h n (joined kind k xs g)
Waits-joined recv recv h g n xs w = Waits-append h n xs (g ∷ []) w
Waits-joined recv handshake_egress h g n xs w = w
Waits-joined handshake_egress recv h g n xs w = w
Waits-joined handshake_egress handshake_egress h g n xs w = Waits-append h n xs (g ∷ []) w

-- One more in front.
Waits-cons : {A : Type 0} (h b : A) (n : ℕ) (xs : List A) → Waits h n xs → Waits h (suc n) (b ∷ xs)
Waits-cons h b n xs w = record {
  before = b ∷ w.before;
  behind = w.behind;
  found = ap (◌∷◌ b) w.found;
  turn = omega (arith, w.turn);
}

-- What is taken out is `h` itself, or `h` still waits, no further behind.
taken_out :
    {A : Type 0} (h g : A) (before behind as' bs : List A)
    → before ++ h ∷ behind ≡ as' ++ g ∷ bs
    → (g ≡ h) ⊎ Waits h (length before) (as' ++ bs)
taken_out h g [] behind [] bs e = inl cc
taken_out h g [] behind (a ∷ as') bs e =
    let first : a ≡ h = cc in
    inr (record {
      before = [];
      behind = as' ++ bs;
      found = ap (λ x. x ∷ (as' ++ bs)) first;
      turn = omega arith;
    })
taken_out h g (b ∷ before) behind [] bs e =
    let rest : bs ≡ before ++ h ∷ behind = cc in
    inr (record { before = before; behind = behind; found = rest; turn = omega arith })
taken_out h g (b ∷ before) behind (a ∷ as') bs e =
    let rest : before ++ h ∷ behind ≡ as' ++ g ∷ bs = cc in
    elim (taken_out h g before behind as' bs rest) [
      | inl it ↦ inl it
      | inr w ↦ inr (Waits-cons h a (length before) (as' ++ bs) w)
    ]

-- Whether a lane is the one asked for, and how many entries a call, or several, take from its front.
unfoldable pub is_one : Resource → Resource → ℕ
is_one recv recv = 1
is_one recv handshake_egress = 0
is_one handshake_egress recv = 0
is_one handshake_egress handshake_egress = 1

first_out :
    {A : Type 0} (h g : A) (n : ℕ) (xs before behind : List A)
    → g ∷ xs ≡ before ++ h ∷ behind
    → length before ≤ n
    → (g ≡ h) ⊎ ((1 ≤ n) × Waits h (n - 1) xs)
first_out h g n xs [] behind e le = inl cc
first_out h g n xs (b ∷ bs) behind e le =
    let rest : xs ≡ bs ++ h ∷ behind = cc in
    inr (omega arith, record { before = bs; behind = behind; found = rest; turn = omega arith })

front_out :
    {A : Type 0} (h g : A) (n : ℕ) (xs : List A)
    → Waits h n (g ∷ xs)
    → (g ≡ h) ⊎ ((1 ≤ n) × Waits h (n - 1) xs)
front_out h g n xs w = first_out h g n xs w.before w.behind w.found w.turn

pub kept_place :
    {A : Type 0} (h : A) (n : ℕ) (xs : List A) → Waits h n xs → (0 ≤ n) × Waits h (n - 0) xs
kept_place h n xs w = (
  omega arith,
  record { before = w.before; behind = w.behind; found = w.found; turn = omega (arith, w.turn) },
)

pub Waits-headed :
    {A : Type 0} (kind k : Resource) (h g : A) (n : ℕ) (xs : List A)
    → Waits h n (headed kind k g xs)
    → (g ≡ h) ⊎ ((is_one kind k ≤ n) × Waits h (n - is_one kind k) xs)
unfolding is_one
Waits-headed recv recv h g n xs w = front_out h g n xs w
Waits-headed recv handshake_egress h g n xs w = inr (kept_place h n xs w)
Waits-headed handshake_egress recv h g n xs w = inr (kept_place h n xs w)
Waits-headed handshake_egress handshake_egress h g n xs w = front_out h g n xs w

pub Waits-Without :
    {A : Type 0} (h g : A) (n : ℕ) (xs ys : List A)
    → Without g xs ys
    → Waits h n xs
    → (g ≡ h) ⊎ Waits h n ys
Waits-Without h g n xs _ same w = inr w
Waits-Without h g n xs _ (out before behind e) w =
    elim (taken_out h g w.before w.behind before behind (sym w.found ∙ e)) [
      | inl it ↦ inl it
      | inr v ↦ inr (record {
        before = v.before;
        behind = v.behind;
        found = v.found;
        turn = omega (arith, v.turn, w.turn);
      })
    ]

pub some_entry : {A : Type 0} (h : A) (before behind : List A) → [] ≡ before ++ h ∷ behind → ⊥
some_entry h [] behind e = cc
some_entry h (b ∷ bs) behind e = cc
