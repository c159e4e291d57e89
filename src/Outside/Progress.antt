-- ===== src/Outside/Progress.antt =====
-- dope's plan of a send: the plaintext that is still to be sent, taken in parts that are committed
-- or given up, and the contract that the encryption loop relies on.
use tls.Base.{ℕ, ◌≤◌, ◌≡◌, ◌↔◌, Bool, true, List, [], length, take, drop}

pub record Progress : Type 1 where
  -- progress::Input over one buffer, and its Part. `rest` is the plaintext not yet consumed.
  pub Plain : Type 0
  pub Part : Type 0
  pub rest : Plain → List ℕ
  pub is_empty : Plain → Bool
  pub take_part : Plain → ℕ → Part
  pub part_slice : Part → List ℕ
  pub amount : Part → ℕ
  pub commit_part : Part → Plain
  pub give_up : Part → Plain
  -- transfer::Len::prefix.
  pub prefix : ℕ → ℕ → ℕ

module _ ⦃d : Progress⦄ where
  open d use {
    Plain, Part, rest, is_empty, take_part, part_slice, amount, commit_part, give_up, prefix,
  }

  pub record PlanLaws : Type 0 where
    pub is_empty_iff : (p : Plain) → (is_empty p ≡ true) ↔ (rest p ≡ [])
    pub part_slice-take : (p : Plain) (k : ℕ) → part_slice (take_part p k) ≡ take k (rest p)
    pub amount-take : (p : Plain) (k : ℕ) → amount (take_part p k) ≡ length (take k (rest p))
    pub rest-commit : (p : Plain) (k : ℕ) → rest (commit_part (take_part p k)) ≡ drop k (rest p)
    pub rest-give_up : (p : Plain) (k : ℕ) → rest (give_up (take_part p k)) ≡ rest p
    pub prefix-le : (n k : ℕ) → n ≤ k → prefix n k ≡ n
