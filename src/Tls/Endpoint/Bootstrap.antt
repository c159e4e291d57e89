-- ===== src/Tls/Endpoint/Bootstrap.antt =====
-- Configurations and the binding of a worker: Sessions, Config, Bound and try_runtime of
-- src/tls/endpoint/mod.rs. Pools are made by the crates, and while they are, other code of the worker
-- may run and bind the store itself.
pub mod Made
pub mod Binding
use tls.Base.{ℕ, Bool, true, false, Option, none, some, Result, ok, err, List, []}
use tls.Outside.{Outside}
use tls.Outside.Slots.{Slots}
use tls.State.Buffers
use tls.Tls.Waiters.{Lanes, Queue}
use tls.Tls.Endpoint.Layout.{
  PoolLayouts, BadLayout, Plan, Limits, new_plan, with_staged, with_send, with_growth, layout,
}
use tls.Tls.Endpoint.Open.{Roles, Runtime}

module _ ⦃o : Outside⦄ ⦃r : Roles⦄ where
  -- Config and its builders.
  pub record Config : Type 0 where
    pub role : r.Config
    pub plan : Plan

  pub from_role : r.Config → Config
  from_role role = record { role = role; plan = new_plan }

  pub config_staged : Config → ℕ → Config
  config_staged config max = record config { plan = with_staged config.plan max }

  pub config_send : Config → ℕ → Config
  config_send config max = record config { plan = with_send config.plan max }

  pub config_growth : Config → ℕ → Config
  config_growth config warm = record config { plan = with_growth config.plan warm }

-- How the crates make a count of connections, a store of sessions, pools and queues.
pub record PoolMaking ⦃o : Outside⦄ ⦃s : Slots⦄ ⦃p : PoolLayouts⦄ ⦃l : Lanes⦄ ⦃r : Roles⦄
    : Type 1 where
  pub CapacityError : Type 0
  pub Exhausted : Type 0
  pub PoolError : Type 0
  pub QueueError : Type 0
  pub count_from : ℕ → Result CapacityError ℕ
  pub new_sessions : ℕ → Result o.AllocError r.Sessions
  pub try_warm : p.PoolLayout → ℕ → Result PoolError s.Growing
  pub recv_from : p.PoolLayout → Result Exhausted s.Fixed
  pub send_from : p.PoolLayout → Result Exhausted o.Pool
  pub new_fifo : ℕ → Result QueueError l.Fifo

module _ ⦃o : Outside⦄ ⦃s : Slots⦄ ⦃p : PoolLayouts⦄ ⦃l : Lanes⦄ ⦃r : Roles⦄ ⦃m : PoolMaking⦄ where
  open o use {Pool, AllocError}
  open m use {
    CapacityError, Exhausted, PoolError, QueueError, count_from, new_sessions, try_warm, recv_from,
    send_from, new_fifo,
  }

  -- net::Resource.
  pub data Refusal : Type 0 where
    bad_layout : BadLayout → Refusal
    already_bound : Refusal
    no_sessions : AllocError → Refusal
    pool_failed : PoolError → Refusal
    exhausted : Exhausted → Refusal
    no_queue : QueueError → Refusal

  -- Pools and Sessions, whose cell is filled at binding.
  pub record Pools : Type 0 where
    pub sessions : r.Sessions
    pub recv : Buffers.Receive
    pub send : Pool

  pub record Sessions : Type 0 where
    pub capacity : ℕ
    pub buffers : Option Pools

  -- Sessions::try_new.
  pub try_new : ℕ → Result CapacityError Sessions
  try_new cap = elim (count_from cap) [
    | err cause ↦ err cause
    | ok capacity ↦ ok (record { capacity = capacity; buffers = none })
  ]

  -- Bound, and Config::bind, which domain::Plan::bind calls.
  pub record Bound : Type 0 where
    pub plan : Plan
    pub role : r.Config
    pub storage : Sessions

  abbrev pub bind : Config → Sessions → Bound
  bind config store = record { plan = config.plan; role = config.role; storage = store }

  -- The receive pool of try_runtime: growing from its warm slots, or whole.
  pub recv_pool : p.PoolLayout → Option ℕ → Result Refusal Buffers.Receive
  recv_pool recv (some warm) = elim (try_warm recv warm) [
    | err cause ↦ err (pool_failed cause)
    | ok pool ↦ ok (Buffers.is_growing pool)
  ]
  recv_pool recv none = elim (recv_from recv) [
    | err cause ↦ err (exhausted cause)
    | ok pool ↦ ok (Buffers.is_fixed pool)
  ]

  -- What try_runtime makes, in its order.
  pub data Making : Type 0 where
    of_sessions of_recv of_send of_queue : Making

  -- What other code does to the cell of the store while each is made.
  abbrev pub Meanwhile : Type 0
  Meanwhile = Making → Option Pools → Option Pools

  pub during : Meanwhile → Making → Sessions → Sessions
  during meanwhile making store = record store { buffers = meanwhile making store.buffers }

  -- The value `init` of try_runtime, and the store by then.
  pub init_pools :
      Meanwhile
      → p.PoolLayout
      → p.PoolLayout
      → Option ℕ
      → Sessions
      → Result Refusal Pools × Sessions
  unfolding recv_pool during
  init_pools meanwhile recv send growing store =
      let store1 = during meanwhile of_sessions store in
      elim (new_sessions store.capacity) [
        | err cause ↦ (err (no_sessions cause), store1)
        | ok sessions ↦
            let store2 = during meanwhile of_recv store1 in
            elim (recv_pool recv growing) [
              | err cause ↦ (err cause, store2)
              | ok receive ↦
                  let store3 = during meanwhile of_send store2 in
                  elim (send_from send) [
                    | err cause ↦ (err (exhausted cause), store3)
                    | ok pool ↦
                        (ok (record { sessions = sessions; recv = receive; send = pool }), store3)
                  ]
            ]
      ]

  -- What a worker runs with: the runtime that opens connections, which borrows the sessions and the
  -- send slots of the store, its receive slots, and its waiters.
  pub record WorkerRuntime : Type 0 where
    pub opening : Runtime
    pub recv : Buffers.Receive
    pub waiters : Queue

  -- The end of try_runtime, once the pools and the queue are made: the cell is looked at again.
  pub fill : Sessions → Pools → l.Fifo → r.Config → Result Refusal WorkerRuntime × Sessions
  fill store init fifo role = elim store.buffers [
    | some _ ↦ (err already_bound, store)
    | none ↦ (
      ok (record {
        opening = record {
          pending = none;
          sessions = init.sessions;
          pool = init.send;
          role = role;
        };
        recv = init.recv;
        waiters = record { waiters = fifo; fates = [] };
      }),
      record store { buffers = some init },
    )
  ]

  -- try_runtime, from the pools on.
  pub queue_and_fill :
      Meanwhile
      → Limits
      → r.Config
      → Result Refusal Pools × Sessions
      → Result Refusal WorkerRuntime × Sessions
  unfolding during fill
  queue_and_fill meanwhile limits role (err cause, store) = (err cause, store)
  queue_and_fill meanwhile limits role (ok init, store) =
      let store' = during meanwhile of_queue store in
      elim (new_fifo limits.connections) [
        | err cause ↦ (err (no_queue cause), store')
        | ok fifo ↦ fill store' init fifo role
      ]

  -- try_runtime, with the store that it has borrowed.
  pub try_runtime : Meanwhile → Limits → Bound → Result Refusal WorkerRuntime × Sessions
  unfolding init_pools queue_and_fill
  try_runtime meanwhile limits bound =
      let store = bound.storage in
      elim (layout bound.plan limits) [
        | err cause ↦ (err (bad_layout cause), store)
        | ok lay ↦ elim store.buffers [
          | some _ ↦ (err already_bound, store)
          | none ↦
              queue_and_fill meanwhile limits bound.role
                (init_pools meanwhile lay.recv_layout lay.send_layout lay.growing store)
        ]
      ]
