-- ===== src/Tls/Endpoint/Ready.antt =====
-- Runtime::ready and take_ready of src/tls/endpoint/mod.rs: whether one who waits can be served.
use tls.Base.{
  ◌≡◌, ◌<◌, ◌⊎◌, inl, inr, Bool-cases, true, false, not, ◌&&◌, Option, none, some, ◌==◌, arith,
}
use tls.Outside.{Outside}
use tls.Outside.Slots.{Slots}
use tls.State.Buffers
use tls.Tls.Waiters.{Resource, recv, handshake_egress, Lanes, Queue, has_waiters, take_waiter}

module _ ⦃o : Outside⦄ ⦃s : Slots⦄ ⦃l : Lanes⦄ where
  open o use {Pool, available}

  -- Runtime::ready.
  pub ready : Queue → Buffers.Receive → Pool → Option Resource
  ready q receive pool =
      let admitted : Resource → Option Resource =
        λ kind. elim (Buffers.available receive == 0) [ true ↦ none | false ↦ some kind ] in
      elim (has_waiters q recv) [
        | true ↦ admitted recv
        | false ↦ elim (has_waiters q handshake_egress && not (available pool == 0)) [
          | true ↦ admitted handshake_egress
          | false ↦ none
        ]
      ]

  -- Runtime::take_ready.
  pub take_ready : Queue → Buffers.Receive → Pool → Option (l.Held × Queue)
  unfolding ready
  take_ready q receive pool = elim (ready q receive pool) [
    | none ↦ none
    | some kind ↦ take_waiter q kind
  ]

  -- Why a kind of waiter is served, or none.
  abbrev pub Served : Queue → Buffers.Receive → Pool → Option Resource → Type 0
  Served q receive pool none =
      (Buffers.available receive ≡ 0)
      ⊎ ((has_waiters q recv ≡ false)
          × ((has_waiters q handshake_egress ≡ false) ⊎ (available pool ≡ 0)))
  Served q receive pool (some recv) = (has_waiters q recv ≡ true) × (0 < Buffers.available receive)
  Served q receive pool (some handshake_egress) =
      (has_waiters q recv ≡ false)
      × (has_waiters q handshake_egress ≡ true)
      × (0 < available pool)
      × (0 < Buffers.available receive)

  -- A receive slot goes first to one who waits for it, and to one who waits for a send slot only if
  -- there is none and a send slot is free; none is served only without slots or without waiters.
  pub ready-Served :
      (q : Queue) (receive : Buffers.Receive) (pool : Pool)
      → Served q receive pool (ready q receive pool)
  unfolding ready
  ready-Served q receive pool = elim (Bool-cases (Buffers.available receive == 0)) [
    | inl z ↦ elim (Bool-cases (has_waiters q recv)) [
      | inl a ↦ rw (a, z, ready) (inl (ground arith))
      | inr a ↦ elim (Bool-cases (has_waiters q handshake_egress && not (available pool == 0))) [
        | inl b ↦ rw (a, b, z, ready) (inl (ground arith))
        | inr b ↦ rw (a, b, ready) (inl (ground arith))
      ]
    ]
    | inr z ↦ elim (Bool-cases (has_waiters q recv)) [
      | inl a ↦ rw (a, z, ready) (a, ground arith)
      | inr a ↦ elim (Bool-cases (has_waiters q handshake_egress && not (available pool == 0))) [
        | inl b ↦ rw (a, b, z, ready) (a, ground arith, ground arith, ground arith)
        | inr b ↦ rw (a, b, ready) (inr (a, ground arith))
      ]
    ]
  ]
