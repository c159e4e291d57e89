-- ===== src/State/Buffers.antt =====
-- Receive of src/state/buffers.rs: the worker's receive slots.
use tls.Base.{ℕ, Option, none, some, Result, ok, err}
use tls.Outside.{Outside}
use tls.Outside.Slots.{Slots}

module _ ⦃o : Outside⦄ ⦃s : Slots⦄ where
  open s use {
    Fixed, Growing, borrow, try_borrow, fixed_available, growing_available, fixed_return,
    growing_return,
  }

  pub data Receive : Type 0 where
    is_fixed : Fixed → Receive
    is_growing : Growing → Receive

  -- Receive::available.
  unfoldable pub available : Receive → ℕ
  available (is_fixed pool) = fixed_available pool
  available (is_growing pool) = growing_available pool

  -- Receive::try_reserve.
  unfoldable pub try_reserve : Receive → Result o.AllocError (Option (o.Reserve × Receive))
  try_reserve (is_fixed pool) = elim (borrow pool) [
    | none ↦ ok none
    | some (recv, pool') ↦ ok (some (recv, is_fixed pool'))
  ]
  try_reserve (is_growing pool) = elim (try_borrow pool) [
    | err cause ↦ err cause
    | ok none ↦ ok none
    | ok (some (recv, pool')) ↦ ok (some (recv, is_growing pool'))
  ]

  -- What dropping a slot does.
  unfoldable pub return_slot : Receive → Receive
  return_slot (is_fixed pool) = is_fixed (fixed_return pool)
  return_slot (is_growing pool) = is_growing (growing_return pool)
