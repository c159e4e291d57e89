-- ===== src/Tls/Endpoint/Bootstrap/Made.antt =====
-- What binding a worker makes, and what the crates are relied on for it.
use tls.Base.{
  ℕ, ◌≡◌, refl, subst, inl, inr, Result-cases, true, Option, none, some, Result, ok, err, arith,
  List, [], ◌∷◌, take, ◌≤◌,
}
use tls.Outside.{Outside}
use tls.Outside.Slots.{Slots}
use tls.State.Buffers
use tls.Tls.Waiters.{Resource, Lanes}
use tls.Tls.Endpoint.Layout.{PoolLayouts}
use tls.Tls.Endpoint.Open.{Roles}
use tls.Tls.Endpoint.Open.Loans.{SessionLaws}
use tls.Tls.Endpoint.Bootstrap.{
  PoolMaking, Refusal, already_bound, Making, of_sessions, of_recv, of_send, of_queue, Meanwhile,
  during, Pools, Sessions, recv_pool, init_pools,
}

module _ ⦃o : Outside⦄ ⦃s : Slots⦄ ⦃p : PoolLayouts⦄ ⦃l : Lanes⦄ ⦃r : Roles⦄ ⦃m : PoolMaking⦄ where
  open o use {Pool, available}
  open m use {new_sessions, try_warm, recv_from, send_from, new_fifo}

  -- Pools have the slots of their layouts, a growing one has those that are warm at first and never
  -- more than its layout, which holds the warm ones; a store lends the sessions it is made for, and
  -- no one waits in a new queue.
  pub record MakingLaws (sessions : SessionLaws) : Type 0 where
    pub new_layout-slots :
        {n size : ℕ} {lay : p.PoolLayout} → p.new_layout n size ≡ ok lay → p.slots lay ≡ n
    pub new_sessions-free : {n : ℕ} {t : r.Sessions} → new_sessions n ≡ ok t → sessions.free t ≡ n
    pub send_from-available :
        {lay : p.PoolLayout} {pool : Pool} → send_from lay ≡ ok pool → available pool ≡ p.slots lay
    pub recv_from-available :
        {lay : p.PoolLayout} {pool : s.Fixed}
        → recv_from lay ≡ ok pool
        → s.fixed_available pool ≡ p.slots lay
    pub allocated : s.Growing → ℕ
    pub limit : s.Growing → ℕ
    pub try_warm-allocated :
        {lay : p.PoolLayout} {warm : ℕ} {pool : s.Growing}
        → try_warm lay warm ≡ ok pool
        → (allocated pool ≡ warm) × (limit pool ≡ p.slots lay) × (warm ≤ p.slots lay)
    pub new_fifo-is_empty :
        {n : ℕ} {fifo : l.Fifo}
        → new_fifo n ≡ ok fifo
        → (kind : Resource) → l.is_empty kind fifo ≡ true

  -- What other code has made of the cell of the store, when the first `n` of the four are made.
  abbrev others : Meanwhile → List Making → Option Pools → Option Pools
  others meanwhile [] cell = cell
  others meanwhile (making ∷ rest) cell = others meanwhile rest (meanwhile making cell)

  abbrev pub left : Meanwhile → ℕ → Sessions → Sessions
  left meanwhile n store = record store {
    buffers =
        others meanwhile (take n (of_sessions ∷ of_recv ∷ of_send ∷ of_queue ∷ [])) store.buffers;
  }

  -- A refusal because the store is bound, of a store that is.
  abbrev pub Explains : Refusal → Sessions → Type 0
  Explains already_bound store = (pools : Pools) × (store.buffers ≡ some pools)
  Explains _ store = Unit

  -- A refusal after `n` of the four are made, which leaves the store as others have made it.
  abbrev pub Refused : Meanwhile → ℕ → Sessions → Refusal → Sessions → Type 0
  Refused meanwhile most store cause store' =
      (n : ℕ) × (n ≤ most) × (store' ≡ left meanwhile n store) × Explains cause store'

  module _ (sessions : SessionLaws) (laws : MakingLaws sessions) where
    open sessions use {free}
    open laws use {allocated, limit}

    -- A receive pool that is allocated whole has `n` free slots; a growing one has the warm slots at
    -- first, and may have `n`.
    abbrev pub RecvRoom : Option ℕ → Buffers.Receive → ℕ → Type 0
    RecvRoom none (Buffers.is_fixed pool) n = s.fixed_available pool ≡ n
    RecvRoom none (Buffers.is_growing pool) n = ⊥
    RecvRoom (some warm) (Buffers.is_fixed pool) n = ⊥
    RecvRoom (some warm) (Buffers.is_growing pool) n =
        (allocated pool ≡ warm) × (limit pool ≡ n) × (warm ≤ n)

    abbrev RecvMade : Option ℕ → ℕ → Sessions → Result Refusal Buffers.Receive → Type 0
    RecvMade growing n store (ok receive) = RecvRoom growing receive n
    RecvMade growing n store (err cause) = Explains cause store

    recv_pool-RecvMade :
        (lay : p.PoolLayout) (growing : Option ℕ) (store : Sessions)
        → RecvMade growing (p.slots lay) store (recv_pool lay growing)
    unfolding recv_pool
    recv_pool-RecvMade lay (some warm) store = elim (Result-cases (try_warm lay warm)) [
      | inl (pool, f) ↦ rw (f, recv_pool) (laws.try_warm-allocated f)
      | inr (cause, f) ↦ rw (f, recv_pool) tt
    ]
    recv_pool-RecvMade lay none store = elim (Result-cases (recv_from lay)) [
      | inl (pool, f) ↦ rw (f, recv_pool) (laws.recv_from-available f)
      | inr (cause, f) ↦ rw (f, recv_pool) tt
    ]

    abbrev pub PoolsMade :
        Meanwhile
        → p.PoolLayout
        → p.PoolLayout
        → Option ℕ
        → Sessions
        → Result Refusal Pools × Sessions
        → Type 0
    PoolsMade meanwhile rlay slay growing store (err cause, store') =
        Refused meanwhile 3 store cause store'
    PoolsMade meanwhile rlay slay growing store (ok init, store') =
        (store' ≡ left meanwhile 3 store)
        × (free init.sessions ≡ store.capacity)
        × (available init.send ≡ p.slots slay)
        × RecvRoom growing init.recv (p.slots rlay)

    pub init_pools-PoolsMade :
        (meanwhile : Meanwhile) (rlay slay : p.PoolLayout) (growing : Option ℕ) (store : Sessions)
        → PoolsMade meanwhile rlay slay growing store (init_pools meanwhile rlay slay growing store)
    unfolding init_pools during
    init_pools-PoolsMade meanwhile rlay slay growing store =
        elim (Result-cases (new_sessions store.capacity)) [
          | inr (cause, f) ↦ rw (f, init_pools) (1, omega arith, refl, tt)
          | inl (t, f) ↦
              let made = recv_pool-RecvMade rlay growing (left meanwhile 2 store) in
              elim (Result-cases (recv_pool rlay growing)) [
                | inr (cause, g) ↦
                    rw (f, g, init_pools)
                      (
                        2,
                        omega arith,
                        refl,
                        subst (RecvMade growing (p.slots rlay) (left meanwhile 2 store)) g made,
                      )
                | inl (receive, g) ↦ elim (Result-cases (send_from slay)) [
                  | inr (cause, h) ↦ rw (f, g, h, init_pools) (3, omega arith, refl, tt)
                  | inl (pool, h) ↦
                      rw (f, g, h, init_pools)
                        (
                          refl,
                          laws.new_sessions-free f,
                          laws.send_from-available h,
                          subst (RecvMade growing (p.slots rlay) (left meanwhile 2 store)) g made,
                        )
                ]
              ]
        ]
