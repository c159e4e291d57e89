-- ===== src/Tls/Receive/Stream/Retain.antt =====
-- src/tls/receive/raw.rs: copying and retaining what a stream shows, which each kind of backing
-- leaves to o3 or dope. What they charge to the budget is theirs.
use tls.Base.{ℕ, ◌≡◌, ap, ◌∙◌, inl, inr, Result-cases, Result, ok, err, List, [], arith}
use tls.Outside.{Outside}
use tls.Outside.Chunks.{Chunks}
use tls.Tls.Receive.Stream.View.{Views, Backing, empty, staged_view, plain_view, as_slice}

-- resident::Budget, storage::Owned, hold::Charge and hold::Retained with their operations.
pub record Holding ⦃o : Outside⦄ ⦃k : Chunks⦄ ⦃v : Views⦄ : Type 1 where
  pub Budget : Type 0
  pub Owned : Type 0
  pub Shared : Type 0
  pub Held : Type 0
  pub Charge : Type 0
  pub HoldError : Type 0
  pub ResidentError : Type 0
  pub RetainError : Type 0
  pub owned_default : Owned
  pub owned_bytes : Owned → List ℕ
  pub try_from_slice : Budget → List ℕ → Result ResidentError Owned
  pub plain_try_copy : List ℕ → Budget → Result HoldError Owned
  pub from_commit : ℕ → ℕ → ℕ → Charge
  pub chunk_charge : v.ChunkView → Charge
  pub plain_charge : List ℕ → Charge
  pub new_shared : Shared
  pub try_own : v.ChunkView → Result RetainError Shared
  pub shared_bytes : Shared → List ℕ
  pub of_shared : Shared → Held
  pub held_bytes : Held → List ℕ
  pub plain_try_retain : List ℕ → Budget → Result HoldError Held
  -- hold::Error::Resident, and resident::AllocError::Retain.
  pub resident : ResidentError → HoldError
  pub retain_failed : RetainError → ResidentError

module _ ⦃o : Outside⦄ ⦃k : Chunks⦄ ⦃v : Views⦄ ⦃g : Holding⦄ where
  open g use {
    Budget, Owned, Shared, Held, Charge, HoldError, owned_default, owned_bytes, try_from_slice,
    plain_try_copy, from_commit, chunk_charge, plain_charge, new_shared, try_own, shared_bytes,
    of_shared, held_bytes, plain_try_retain, resident, retain_failed,
  }

  -- Retain of Head, over the shared input of dope.
  abbrev head_try_copy : List ℕ → Budget → Result HoldError Owned
  head_try_copy plan budget = plain_try_copy plan budget

  abbrev head_charge : List ℕ → Charge
  head_charge plan = plain_charge plan

  abbrev head_try_retain : List ℕ → Budget → Result HoldError Held
  head_try_retain plan budget = plain_try_retain plan budget

  -- Retain::try_copy of Current.
  pub try_copy : Backing → Budget → Result HoldError Owned
  try_copy empty budget = ok owned_default
  try_copy (staged_view plan) budget = elim (try_from_slice budget (v.view_bytes plan)) [
    | err cause ↦ err (resident cause)
    | ok owned ↦ ok owned
  ]
  try_copy (plain_view plan) budget = plain_try_copy plan budget

  -- Retain::charge.
  pub charge : Backing → Charge
  charge empty = from_commit 0 0 0
  charge (staged_view plan) = chunk_charge plan
  charge (plain_view plan) = plain_charge plan

  -- Retain::try_retain.
  pub try_retain : Backing → Budget → Result HoldError Held
  try_retain empty budget = ok (of_shared new_shared)
  try_retain (staged_view plan) budget = elim (try_own plan) [
    | err cause ↦ err (resident (retain_failed cause))
    | ok shared ↦ ok (of_shared shared)
  ]
  try_retain (plain_view plan) budget = plain_try_retain plan budget

  -- Retain of Retained, which leaves it to Current.
  abbrev pub retained_try_copy : Backing → Budget → Result HoldError Owned
  retained_try_copy plan budget = try_copy plan budget

  abbrev pub retained_charge : Backing → Charge
  retained_charge plan = charge plan

  abbrev pub retained_try_retain : Backing → Budget → Result HoldError Held
  retained_try_retain plan budget = try_retain plan budget

  -- What is copied or retained has the bytes that it is made of.
  pub record HoldLaws : Type 0 where
    pub owned_default-bytes : owned_bytes owned_default ≡ []
    pub try_from_slice-bytes :
        (budget : Budget) (bytes : List ℕ) (owned : Owned)
        → try_from_slice budget bytes ≡ ok owned
        → owned_bytes owned ≡ bytes
    pub plain_try_copy-bytes :
        (plan : List ℕ) (budget : Budget) (owned : Owned)
        → plain_try_copy plan budget ≡ ok owned
        → owned_bytes owned ≡ plan
    pub new_shared-bytes : held_bytes (of_shared new_shared) ≡ []
    pub try_own-bytes :
        (plan : v.ChunkView) (shared : Shared)
        → try_own plan ≡ ok shared
        → held_bytes (of_shared shared) ≡ v.view_bytes plan
    pub plain_try_retain-bytes :
        (plan : List ℕ) (budget : Budget) (held : Held)
        → plain_try_retain plan budget ≡ ok held
        → held_bytes held ≡ plan

  module _ (laws : HoldLaws) where
    -- A copy that succeeds has exactly the bytes that the view shows.
    pub try_copy-as_slice :
        (b : Backing) (budget : Budget) (owned : Owned)
        → try_copy b budget ≡ ok owned
        → owned_bytes owned ≡ as_slice b
    unfolding try_copy as_slice
    try_copy-as_slice empty budget owned e =
        let same : owned ≡ owned_default = ground arith in
        ap owned_bytes same ∙ laws.owned_default-bytes
    try_copy-as_slice (plain_view plan) budget owned e =
        laws.plain_try_copy-bytes plan budget owned e
    try_copy-as_slice (staged_view plan) budget owned e =
        elim (Result-cases (try_from_slice budget (v.view_bytes plan))) [
          | inr (cause, f) ↦ absurd (ground arith)
          | inl (made, f) ↦
              let same : owned ≡ made = ground arith in
              ap owned_bytes same ∙ laws.try_from_slice-bytes budget (v.view_bytes plan) made f
        ]

    -- What is retained has exactly the bytes that the view shows.
    pub try_retain-as_slice :
        (b : Backing) (budget : Budget) (held : Held)
        → try_retain b budget ≡ ok held
        → held_bytes held ≡ as_slice b
    unfolding try_retain as_slice
    try_retain-as_slice empty budget held e =
        let same : held ≡ of_shared new_shared = ground arith in
        ap held_bytes same ∙ laws.new_shared-bytes
    try_retain-as_slice (plain_view plan) budget held e =
        laws.plain_try_retain-bytes plan budget held e
    try_retain-as_slice (staged_view plan) budget held e = elim (Result-cases (try_own plan)) [
      | inr (cause, f) ↦ absurd (ground arith)
      | inl (made, f) ↦
          let same : held ≡ of_shared made = ground arith in
          ap held_bytes same ∙ laws.try_own-bytes plan made f
    ]
