-- ===== src/Tls/Policy.antt =====
-- src/tls/receive/policy.rs, and `finish`, `process` and `read_lease` of src/tls/protocol.rs: one
-- receive of a worker. It takes a receive slot and, during a handshake, the send buffer, reads, and
-- gives back what it still holds. The connections that wait for a slot are woken by the end.
pub mod Lent
pub mod Woken
pub mod Fresh
pub mod Rule
pub mod Silent
use tls.Base.{ℕ, Bool, true, false, ◌&&◌, Option, none, some, Result, ok, err, and, List}
use tls.Outside.{Outside}
use tls.Outside.Slots.{Slots}
use tls.Error.{Error, allocation}
use tls.State.Staged.{Release, released, retained}
use tls.State.Buffers
use tls.Tls.{
  Connection, SendState, Availability, released as slot_released, unchanged, emit_into, reserve,
  restore,
}
use tls.Tls.Link.{Processed, output, terminal, eof}
use tls.Tls.Waiters.{Resource, recv, handshake_egress, Lanes, Queue, wake}

module _ ⦃o : Outside⦄ ⦃s : Slots⦄ ⦃l : Lanes⦄ where
  open o use {Cursor, Pool, Reserve, is_handshaking}

  -- A connection with what the worker lends it: its send buffer, the receive slots, the pool of
  -- send buffers and the queue of those who wait.
  pub record Worker : Type 0 where
    pub conn : Connection
    pub store : SendState
    pub receive : Buffers.Receive
    pub pool : Pool
    pub queue : Queue

  -- Transaction. `loan` is the send buffer that it has taken out of `store`.
  pub record Transaction (S : Type 0) : Type 0 where
    pub worker : Worker
    pub loan : Option Cursor
    pub lease : S

  -- reserve::Outcome.
  pub data Outcome : Type 0 where
    is_ready : Transaction Reserve → Outcome
    is_blocked : Resource → Worker → Outcome
    is_failed : Error → Worker → Outcome

  -- The part of Policy::try_reserve that has a receive slot. `has_store` says that the caller lends
  -- its send buffer.
  pub with_slot : Bool → Worker → Reserve → Outcome
  with_slot has_store w lease = elim (is_handshaking w.conn.native && has_store) [
    | false ↦ is_ready (record { worker = w; loan = none; lease = lease })
    | true ↦ elim (reserve w.store w.pool) [
      | none ↦
          is_blocked handshake_egress
            (record w { receive = Buffers.return_slot w.receive; queue = wake w.queue recv })
      | some (cursor, store, pool) ↦ is_ready (record {
        worker = record w { store = store; pool = pool };
        loan = some cursor;
        lease = lease;
      })
    ]
  ]

  -- Policy::try_reserve.
  pub try_reserve : Bool → Worker → Outcome
  unfolding with_slot
  try_reserve has_store w = elim (Buffers.try_reserve w.receive) [
    | err cause ↦ is_failed (allocation cause) (record w { conn = record w.conn { failed = true } })
    | ok none ↦ is_blocked recv w
    | ok (some (lease, receive)) ↦ with_slot has_store (record w { receive = receive }) lease
  ]

  -- Transaction::finish.
  pub flush_loan : {S : Type 0} → Transaction S → Result Error (Unit {0}) × Transaction S
  flush_loan txn = elim txn.loan [
    | none ↦ (ok tt, txn)
    | some out ↦
        let (r, conn, out') = emit_into txn.worker.conn out in
        (r, record txn { worker = record txn.worker { conn = conn }; loan = some out' })
  ]

  -- The end of a loan in Transaction::release: Buffered::complete.
  pub complete_loan : Option Cursor → Worker → Worker
  complete_loan none w = w
  complete_loan (some cursor) w =
      let (free, store, pool) = restore w.store cursor w.pool in
      let w' : Worker = record w { store = store; pool = pool } in
      elim free [
        | slot_released ↦ record w' { queue = wake w'.queue handshake_egress }
        | unchanged ↦ w'
      ]

  -- Transaction::release, once the lease is dropped.
  pub release : {S : Type 0} → Transaction S → Release → Worker
  unfolding complete_loan
  release txn freed =
      let w = txn.worker in
      elim freed [
        | released ↦ complete_loan txn.loan (record w { queue = wake w.queue recv })
        | retained ↦ complete_loan txn.loan w
      ]

  -- Completion::complete of a transaction that has not read: its receive slot goes back.
  pub complete_unread : Transaction Reserve → Worker
  unfolding release
  complete_unread txn =
      release
        (record txn {
          worker = record txn.worker { receive = Buffers.return_slot txn.worker.receive };
        })
        released

  -- A read, as Ingress::read_batch and Ingress::retain are: over the connection and the slot. Of
  -- what it returns `Release` tells whether the slot went back.
  abbrev pub Reader : Type 0 → Type 0
  Reader T = Connection → Reserve → Option (T × Result Error (Unit {0}) × Release × Connection)

  -- What a read that released its slot does to the receive slots.
  abbrev pub returned : Release → Buffers.Receive → Buffers.Receive
  returned released slots = Buffers.return_slot slots
  returned retained slots = slots

  -- Transaction::read: the read takes the lease, and leaves its Release in its place.
  pub read_lease :
      {T : Type 0}
      → Reader T
      → Transaction Reserve
      → Option (Transaction Release × T × Result Error (Unit {0}))
  read_lease read txn = elim (read txn.worker.conn txn.lease) [
    | none ↦ none
    | some (result_value, result, freed, conn) ↦
        let w : Worker = record txn.worker {
          conn = conn;
          receive = returned freed txn.worker.receive;
        } in
        some (record { worker = w; loan = txn.loan; lease = freed }, result_value, result)
  ]

  -- Transaction::is_peer_done.
  abbrev pub is_peer_done : Transaction Release → Bool
  is_peer_done txn = txn.worker.conn.peer_closed

  -- Completion::complete of a transaction that has read.
  pub complete : Transaction Release → Worker
  unfolding release
  complete txn = release txn txn.lease

  -- The end of a receive: `finish` of protocol.rs.
  pub finish :
      {T : Type 0} → T → Result Error (Unit {0}) → Transaction Release → Processed T × Worker
  unfolding flush_loan complete
  finish result_value result txn =
      let (flushed, txn') = flush_loan txn in
      let closed = is_peer_done txn' in
      let w = complete txn' in
      elim (and result flushed) [
        | err cause ↦ (terminal result_value cause, w)
        | ok _ ↦ elim closed [ true ↦ (eof result_value, w) | false ↦ (output result_value, w) ]
      ]

  -- Ingress::process and Ingress::read_lease.
  pub process : {T : Type 0} → Reader T → Transaction Reserve → Option (Processed T × Worker)
  unfolding read_lease finish
  process read txn = elim (read_lease read txn) [
    | none ↦ none
    | some (txn', result_value, result) ↦ some (finish result_value result txn')
  ]
