-- ===== src/Outside/Slots.antt =====
-- The pools of receive slots of o3, fixed and growing, and the contract on their counts.
use tls.Base.{ℕ, suc, ◌≡◌, Option, some, Result, ok}
use tls.Outside.{Outside}

pub record Slots ⦃o : Outside⦄ : Type 1 where
  -- pool::Pool and pool::Growing. A slot that is dropped goes back to the pool that it is of.
  pub Fixed : Type 0
  pub Growing : Type 0
  pub borrow : Fixed → Option (o.Reserve × Fixed)
  pub try_borrow : Growing → Result o.AllocError (Option (o.Reserve × Growing))
  pub fixed_available : Fixed → ℕ
  pub growing_available : Growing → ℕ
  pub fixed_return : Fixed → Fixed
  pub growing_return : Growing → Growing

module _ ⦃o : Outside⦄ ⦃s : Slots⦄ where
  open s use {
    Fixed, Growing, borrow, try_borrow, fixed_available, growing_available, fixed_return,
    growing_return,
  }

  pub record SlotLaws : Type 0 where
    pub borrow-available :
        {p q : Fixed} {r : o.Reserve}
        → borrow p ≡ some (r, q)
        → fixed_available p ≡ suc (fixed_available q)
    pub try_borrow-available :
        {p q : Growing} {r : o.Reserve}
        → try_borrow p ≡ ok (some (r, q))
        → growing_available p ≡ suc (growing_available q)
    pub fixed_return-available :
        (p : Fixed) → fixed_available (fixed_return p) ≡ suc (fixed_available p)
    pub growing_return-available :
        (p : Growing) → growing_available (growing_return p) ≡ suc (growing_available p)
