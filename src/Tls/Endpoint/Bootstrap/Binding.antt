-- ===== src/Tls/Endpoint/Bootstrap/Binding.antt =====
-- What a worker has once it is bound, and that a store is bound once.
use tls.Base.{
  ℕ, ◌≡◌, refl, sym, ap, subst, ◌∙◌, inl, inr, Option-cases, Result-cases, true, false, not, Option,
  none, some, Result, ok, err, arith, ◌⊎◌,
}
use tls.Outside.{Outside}
use tls.Outside.Slots.{Slots}
use tls.State.Buffers
use tls.Tls.Waiters.{Resource, recv, handshake_egress, Lanes, has_waiters}
use tls.Tls.Endpoint.Layout.{PoolLayouts, Layout, Limits, layout, recv_request, send_request}
use tls.Tls.Endpoint.Layout.Bounds.{layout-requests}
use tls.Tls.Endpoint.Open.{Roles}
use tls.Tls.Endpoint.Open.Loans.{SessionLaws}
use tls.Tls.Endpoint.Bootstrap.{
  PoolMaking, Refusal, already_bound, bad_layout, Meanwhile, during, fill, Pools, Sessions, Config,
  bind, init_pools, WorkerRuntime, queue_and_fill, try_runtime,
}
use tls.Tls.Endpoint.Bootstrap.Made.{
  MakingLaws, left, Explains, Refused, RecvRoom, PoolsMade, init_pools-PoolsMade,
}

module _ ⦃o : Outside⦄ ⦃s : Slots⦄ ⦃p : PoolLayouts⦄ ⦃l : Lanes⦄ ⦃r : Roles⦄ ⦃m : PoolMaking⦄
    (sessions : SessionLaws) (laws : MakingLaws sessions) where
  open o use {available}
  open m use {new_fifo}
  open sessions use {free}

  -- What binding comes to: a refusal leaves the store as it was, or as other code has made it.
  abbrev pub Binds :
      Meanwhile → Limits → Config → Sessions → Result Refusal WorkerRuntime × Sessions → Type 0
  Binds meanwhile limits config store (err cause, store') =
      ((store' ≡ store) × Explains cause store)
      ⊎ ((store.buffers ≡ none) × Refused meanwhile 4 store cause store')
  Binds meanwhile limits config store (ok run, store') =
      (store.buffers ≡ none)
      × ((left meanwhile 4 store).buffers ≡ none)
      × (store' ≡ record store {
        buffers =
            some (record {
              sessions = run.opening.sessions;
              recv = run.recv;
              send = run.opening.pool;
            });
      })
      × (run.opening.pending ≡ none)
      × (run.opening.role ≡ config.role)
      × (free run.opening.sessions ≡ store.capacity)
      × (available run.opening.pool ≡ send_request config.plan limits)
      × RecvRoom sessions laws config.plan.growing run.recv (recv_request config.plan limits)
      × (has_waiters run.waiters recv ≡ false)
      × (has_waiters run.waiters handshake_egress ≡ false)

  room_of :
      (growing growing' : Option ℕ) (receive : Buffers.Receive) (n n' : ℕ)
      → growing ≡ growing'
      → n ≡ n'
      → RecvRoom sessions laws growing receive n
      → RecvRoom sessions laws growing' receive n'
  room_of growing growing' receive n n' e f room = rw (sym e, sym f) room

  -- Once the pools and the queue are made.
  fill-Binds :
      (meanwhile : Meanwhile) (limits : Limits) (config : Config) (store : Sessions) (init : Pools)
      (fifo : l.Fifo)
      → store.buffers ≡ none
      → ((kind : Resource) → l.is_empty kind fifo ≡ true)
      → free init.sessions ≡ store.capacity
      → available init.send ≡ send_request config.plan limits
      → RecvRoom sessions laws config.plan.growing init.recv (recv_request config.plan limits)
      → Binds meanwhile limits config store (fill (left meanwhile 4 store) init fifo config.role)
  unfolding fill has_waiters
  fill-Binds meanwhile limits config store init fifo b empty some_free sendable room =
      elim (Option-cases (left meanwhile 4 store).buffers) [
        | inr (pools, c) ↦ rw (c, fill) (inr (b, (4, omega arith, refl, (pools, c))))
        | inl c ↦
            rw (c, fill)
              (
                b,
                c,
                refl,
                refl,
                refl,
                some_free,
                sendable,
                room,
                ap not (empty recv),
                ap not (empty handshake_egress),
              )
      ]

  made-Binds :
      (meanwhile : Meanwhile) (limits : Limits) (config : Config) (store : Sessions) (lay : Layout)
      → store.buffers ≡ none
      → layout config.plan limits ≡ ok lay
      → (made : Result Refusal Pools × Sessions)
      → PoolsMade sessions laws meanwhile lay.recv_layout lay.send_layout lay.growing store made
      → Binds meanwhile limits config store (queue_and_fill meanwhile limits config.role made)
  unfolding queue_and_fill during
  made-Binds meanwhile limits config store lay b a (err cause, store3) (n, le, h, why) =
      inr (b, (n, omega (arith, le), h, why))
  made-Binds meanwhile limits config store lay b a (ok init, store3)
        (h, some_free, sendable, room) =
      let (recv_of, send_of, same) = layout-requests config.plan limits lay a in
      subst
        (λ st.
          Binds meanwhile limits config store
            (queue_and_fill meanwhile limits config.role (ok init, st)))
        (sym h)
        (elim (Result-cases (new_fifo limits.connections)) [
          | inr (cause, d) ↦ rw (d, queue_and_fill) (inr (b, (4, omega arith, refl, tt)))
          | inl (fifo, d) ↦
              rw (d, queue_and_fill)
                (fill-Binds meanwhile limits config store init fifo b
                  (λ kind. laws.new_fifo-is_empty d kind) some_free
                  (sendable ∙ laws.new_layout-slots send_of)
                  (room_of lay.growing config.plan.growing init.recv (p.slots lay.recv_layout)
                    (recv_request config.plan limits) same (laws.new_layout-slots recv_of) room))
        ])

  -- Other code may bind the store while the pools are made. Binding refuses a store that is bound at
  -- first, or by then, and leaves it to that binding; another refusal leaves the store as others
  -- have made it. Else it fills the store, which nobody has bound, with the pools of a worker that
  -- has no cached opening and no waiter, whose free sessions are the store's capacity and whose free
  -- send slots are those that the plan asks for under the limits. The receive slots are as many as
  -- the plan asks for, all free, or, for a plan that grows, its warm slots are allocated and it may
  -- have as many as the plan asks for. The crates make pools of the size of their layout.
  pub try_runtime-Binds :
      (meanwhile : Meanwhile) (limits : Limits) (config : Config) (store : Sessions)
      → Binds meanwhile limits config store (try_runtime meanwhile limits (bind config store))
  unfolding try_runtime
  try_runtime-Binds meanwhile limits config store =
      elim (Result-cases (layout config.plan limits)) [
        | inr (cause, a) ↦ rw (a, try_runtime) (inl (refl, tt))
        | inl (lay, a) ↦ elim (Option-cases store.buffers) [
          | inr (pools, b) ↦ rw (a, b, try_runtime) (inl (refl, (pools, b)))
          | inl b ↦
              rw (a, b, try_runtime)
                (made-Binds meanwhile limits config store lay b a
                  (init_pools meanwhile lay.recv_layout lay.send_layout lay.growing store)
                  (init_pools-PoolsMade sessions laws meanwhile lay.recv_layout lay.send_layout
                    lay.growing store))
        ]
      ]

  -- A store is bound once: after a binding, another one is refused, whatever its limits and
  -- configuration, and changes nothing.
  pub try_runtime-once :
      (meanwhile meanwhile' : Meanwhile) (limits limits' : Limits) (config config' : Config)
      (store store' : Sessions) (run : WorkerRuntime)
      → try_runtime meanwhile limits (bind config store) ≡ (ok run, store')
      → (cause : Refusal) × (try_runtime meanwhile' limits' (bind config' store')
          ≡ (err cause, store'))
  unfolding try_runtime
  try_runtime-once meanwhile meanwhile' limits limits' config config' store store' run e =
      let (_, _, full, _, _, _, _, _, _, _) =
        subst (Binds meanwhile limits config store) e
          (try_runtime-Binds meanwhile limits config store) in
      let b = ap (λ t. t.buffers) full in
      elim (Result-cases (layout config'.plan limits')) [
        | inr (cause, a) ↦ (bad_layout cause, ground arith)
        | inl (lay, a) ↦ (already_bound, ground arith)
      ]
