-- ===== src/Tls/Endpoint/Layout.antt =====
-- src/tls/endpoint/layout.rs: how many slots the pools of a worker have. A `usize` has 64 bits.
pub mod Bounds
use tls.Base.{
  ℕ, suc, ◌+◌, ◌-◌, ◌*◌, ◌/◌, ◌%◌, ◌^◌, min, max, Bool, true, false, Option, none, some, Result, ok,
  err, ◌==◌,
}
use tls.Error.{BufferKind, receive, send}
use tls.Staging.{max_plaintext, tls_staging_cap}

-- pool::Layout with its error, and bounded::U32::from_usize at a maximum.
pub record PoolLayouts : Type 1 where
  pub PoolLayout : Type 0
  pub Cause : Type 0
  pub new_layout : ℕ → ℕ → Result Cause PoolLayout
  pub slots : PoolLayout → ℕ
  pub from_usize : ℕ → ℕ → Option ℕ

abbrev pub default_staged_records : ℕ
default_staged_records = 64

abbrev pub default_ciphertext_slots : ℕ
default_ciphertext_slots = 128

abbrev pub max_staged_records : ℕ
max_staged_records = 4294967294

-- layout::Error.
pub record StagedError : Type 0 where
  pub actual : ℕ
  pub maximum : ℕ

-- domain::Limits, and layout::Plan.
pub record Limits : Type 0 where
  pub connections : ℕ
  pub resident : ℕ

pub record Plan : Type 0 where
  pub staged : Option ℕ
  pub send_max : ℕ
  pub growing : Option ℕ

-- The value that `new` of a Plan gives.
pub new_plan : Plan
new_plan = record { staged = none; send_max = 1 + (default_ciphertext_slots - 1); growing = none }

-- with_staged, with_send and with_growth of a Plan.
pub with_staged : Plan → ℕ → Plan
with_staged plan max = record plan { staged = some max }

pub with_send : Plan → ℕ → Plan
with_send plan max = record plan { send_max = max }

pub with_growth : Plan → ℕ → Plan
with_growth plan warm = record plan { growing = some warm }

-- usize::div_ceil.
pub div_ceil : ℕ → ℕ → ℕ
div_ceil a b = elim (a % b == 0) [ true ↦ a / b | false ↦ a / b + 1 ]

-- The records that may be held, of `layout` of a Plan.
pub held_records : Plan → Limits → ℕ
unfolding div_ceil
held_records plan limits = elim plan.staged [
  | some count ↦ count
  | none ↦
      max (min default_staged_records limits.connections) (div_ceil limits.resident max_plaintext)
]

-- The slots that `layout` of a Plan asks for.
pub recv_request : Plan → Limits → ℕ
recv_request plan limits = (held_records plan limits + 1) % 2 ^ 64

pub send_request : Plan → Limits → ℕ
send_request plan limits = min plan.send_max limits.connections

module _ ⦃p : PoolLayouts⦄ where
  open p use {PoolLayout, Cause, new_layout, slots, from_usize}

  -- Staged::try_from.
  pub try_from : ℕ → Result StagedError ℕ
  try_from actual = elim (from_usize max_staged_records actual) [
    | some count ↦ ok count
    | none ↦ err (record { actual = actual; maximum = max_staged_records })
  ]

  pub record Layout : Type 0 where
    pub recv_layout : PoolLayout
    pub send_layout : PoolLayout
    pub growing : Option ℕ

  -- net::BufferLayout.
  pub record BadLayout : Type 0 where
    pub kind : BufferKind
    pub cause : Cause

  -- Layout::try_new.
  pub try_new : ℕ → ℕ → Option ℕ → Result BadLayout Layout
  try_new rslots sslots growing = elim (new_layout rslots max_plaintext) [
    | err cause ↦ err (record { kind = receive; cause = cause })
    | ok recv ↦ elim (new_layout sslots tls_staging_cap) [
      | err cause ↦ err (record { kind = send; cause = cause })
      | ok sending ↦ ok (record { recv_layout = recv; send_layout = sending; growing = growing })
    ]
  ]

  -- `layout` of a Plan.
  pub layout : Plan → Limits → Result BadLayout Layout
  unfolding recv_request send_request try_new
  layout plan limits = try_new (recv_request plan limits) (send_request plan limits) plan.growing

  -- Layout::recv_slots, send_slots, recv_cap and send_cap.
  abbrev pub recv_slots : Layout → ℕ
  recv_slots l = slots l.recv_layout

  abbrev pub send_slots : Layout → ℕ
  send_slots l = slots l.send_layout

  abbrev pub recv_cap : Layout → ℕ
  recv_cap l = max_plaintext

  abbrev pub send_cap : Layout → ℕ
  send_cap l = tls_staging_cap

  -- Layout::payload.
  pub payload : Layout → ℕ
  payload l = (slots l.recv_layout * max_plaintext + slots l.send_layout * tls_staging_cap) % 2 ^ 64
