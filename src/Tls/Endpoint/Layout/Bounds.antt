-- ===== src/Tls/Endpoint/Layout/Bounds.antt =====
-- The slots suffice for what a worker may hold, and no count overflows.
use tls.Base.{
  ℕ, ◌+◌, ◌*◌, ◌/◌, ◌^◌, ◌≤◌, ◌<◌, ◌≡◌, refl, subst, min, inl, inr, Option-cases, Result-cases, ok,
  Option, none, some, arith,
}
use tls.Staging.{max_plaintext, tls_staging_cap}
use tls.Tls.Endpoint.Layout.{
  recv_slots, send_slots, recv_cap, send_cap, PoolLayouts, max_staged_records,
  default_staged_records, Limits, Plan, div_ceil, held_records, recv_request, send_request, Layout,
  layout, payload,
}

pub div_ceil-bounds :
    (a : ℕ)
    → (a ≤ div_ceil a max_plaintext * max_plaintext)
      × (div_ceil a max_plaintext ≤ a / max_plaintext + 1)
unfolding div_ceil
div_ceil-bounds a = ground arith

abbrev AdmittedCount : Option ℕ → Type 0
AdmittedCount none = Unit
AdmittedCount (some count) = count ≤ max_staged_records

-- The room that the held records have for the resident bytes.
abbrev pub Roomy : Option ℕ → ℕ → Limits → Type 0
Roomy (some count) held limits = held ≡ count
Roomy none held limits =
    (limits.resident ≤ held * max_plaintext)
    × (min default_staged_records limits.connections ≤ held)

-- The staged count of a plan, as Staged::try_from admits it, and limits of a 64-bit machine.
pub record Admitted (plan : Plan) (limits : Limits) : Type 0 where
  pub staged_count : AdmittedCount plan.staged
  pub some_connection : 0 < limits.connections
  pub some_send : 0 < plan.send_max
  pub resident_word : limits.resident < 2 ^ 64

-- The receive pool has a slot more than the records that may be held, with no overflow. Where the
-- plan sets a staged count, the held records are that count, whatever the resident bytes; where it
-- sets none, they have room for all resident bytes, and are at least the default count or the
-- connections, whichever is less. The send pool has a slot at least, and no more than there are
-- connections.
pub layout-sizes :
    (plan : Plan) (limits : Limits)
    → Admitted plan limits
    → (recv_request plan limits ≡ held_records plan limits + 1)
      × Roomy plan.staged (held_records plan limits) limits
      × (0 < send_request plan limits)
      × (send_request plan limits ≤ limits.connections)
unfolding recv_request send_request held_records
layout-sizes plan limits h = elim (Option-cases plan.staged) [
  | inl e ↦
      let (room, small) = div_ceil-bounds limits.resident in
      rw (e, recv_request, send_request, held_records)
        (
          omega (arith, h.resident_word, small),
          (omega (arith, room), omega arith),
          omega (arith, h.some_send, h.some_connection),
          omega arith,
        )
  | inr (count, e) ↦
      let le : count ≤ max_staged_records = subst AdmittedCount e h.staged_count in
      rw (e, recv_request, send_request, held_records)
        (omega arith, refl, omega (arith, h.some_send, h.some_connection), omega arith)
]

module _ ⦃p : PoolLayouts⦄ where
  -- A layout is made of the two requests.
  pub layout-requests :
      (plan : Plan) (limits : Limits) (lay : Layout)
      → layout plan limits ≡ ok lay
      → (p.new_layout (recv_request plan limits) max_plaintext ≡ ok lay.recv_layout)
        × (p.new_layout (send_request plan limits) tls_staging_cap ≡ ok lay.send_layout)
        × (lay.growing ≡ plan.growing)
  unfolding layout
  layout-requests plan limits lay e =
      elim (Result-cases (p.new_layout (recv_request plan limits) max_plaintext)) [
        | inr (cause, f) ↦ absurd (ground arith)
        | inl (recv, f) ↦
            elim (Result-cases (p.new_layout (send_request plan limits) tls_staging_cap)) [
              | inr (cause, g) ↦ absurd (ground arith)
              | inl (sending, g) ↦ (ground arith, ground arith, ground arith)
            ]
      ]

  -- Whatever the slots of two pools with 32-bit counts, the payload is computed without overflow: it
  -- is that of the receive slots and of the send slots, each at its capacity.
  pub payload-exact :
      (l : Layout)
      → recv_slots l < 2 ^ 32
      → send_slots l < 2 ^ 32
      → payload l ≡ recv_slots l * recv_cap l + send_slots l * send_cap l
  unfolding payload
  payload-exact l a b = omega arith
