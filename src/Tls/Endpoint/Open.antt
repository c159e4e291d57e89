-- ===== src/Tls/Endpoint/Open.antt =====
-- Opening a connection: `open` and `reconfigure` of src/tls/endpoint/mod.rs. The role's `open` is
-- rustls's, and `consume` is the caller's.
pub mod Loans
pub mod Unavailable
pub mod Cached
use tls.Base.{ℕ, Bool, true, false, Option, none, some, Result, ok, err}
use tls.Outside.{Outside}
use tls.Error.{Error, buffer_unavailable}
use tls.Tls.{Connection, SendState, new, dropped}

-- recycle::Store of the sessions, and a role: its configuration, whether it sends first, and
-- R::open.
pub record Roles ⦃o : Outside⦄ : Type 1 where
  pub Config : Type 0
  pub send_on_open : Bool
  pub open_role : Config → Result Error o.Native
  pub Sessions : Type 0
  pub take_session : Sessions → Option Sessions
  pub return_session : Sessions → Sessions

-- open::Disposition: what `consume` makes of a connection, which it may give back for the cache.
pub data Disposition ⦃o : Outside⦄ (T : Type 0) : Type 0 where
  consumed : T → Disposition T
  given_back : T → Connection → SendState → Disposition T

pub data Opening ⦃o : Outside⦄ (T : Type 0) : Type 0 where
  is_unavailable : Opening T
  has_failed : Error → Opening T
  is_opened : T → Opening T

module _ ⦃o : Outside⦄ ⦃r : Roles⦄ where
  open o use {Pool, Cursor, view}
  open r use {Config, Sessions, send_on_open, open_role, take_session, return_session}

  pub record Runtime : Type 0 where
    pub pending : Option (Connection × SendState)
    pub sessions : Sessions
    pub pool : Pool
    pub role : Config

  -- Runtime::reconfigure. The cached opening is dropped, its session and buffer with it.
  pub reconfigure : Runtime → Config → Runtime
  reconfigure run config = elim run.pending [
    | none ↦ record run { role = config }
    | some (_, store) ↦ record run {
      pending = none;
      sessions = return_session run.sessions;
      pool = dropped store.buffer run.pool;
      role = config;
    }
  ]

  -- `R::open(..).and_then(Connection::new)`, with the buffer that was taken.
  pub connect : Config → Option Cursor → Pool → Result Error (Connection × SendState) × Pool
  connect config pending pool = elim (open_role config) [
    | err cause ↦ (err cause, dropped pending pool)
    | ok native ↦ new native (record { buffer = pending }) pool
  ]

  module _ {T : Type 0} (consume : Connection → SendState → Disposition T) where
    -- The end of Runtime::open.
    pub publish : Runtime → Connection → SendState → Opening T × Runtime
    publish run conn store = elim (consume conn store) [
      | consumed t ↦ (is_opened t, run)
      | given_back t conn' store' ↦ (is_opened t, record run { pending = some (conn', store') })
    ]

    -- The part of Runtime::open that has a session. A failure drops it.
    pub with_session : Runtime → Option Cursor → Opening T × Runtime
    unfolding connect publish
    with_session run pending =
        let (opened, pool) = connect run.role pending run.pool in
        let run' : Runtime = record run { pool = pool } in
        let lost : Runtime = record run' { sessions = return_session run.sessions } in
        elim opened [
          | ok (conn, store) ↦ publish run' conn store
          | err buffer_unavailable ↦ (is_unavailable, lost)
          | err cause ↦ (has_failed cause, lost)
        ]

    -- Runtime::open.
    pub open_connection : Runtime → Opening T × Runtime
    unfolding with_session publish
    open_connection run = elim run.pending [
      | some (conn, store) ↦ publish (record run { pending = none }) conn store
      | none ↦ elim (take_session run.sessions) [
        | none ↦ (is_unavailable, run)
        | some sessions ↦
            let run' : Runtime = record run { sessions = sessions } in
            elim send_on_open [
              | false ↦ with_session run' none
              | true ↦ elim (view run.pool) [
                | none ↦ (is_unavailable, record run { sessions = return_session sessions })
                | some (cursor, pool) ↦ with_session (record run' { pool = pool }) (some cursor)
              ]
            ]
      ]
    ]
