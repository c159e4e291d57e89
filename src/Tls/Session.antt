-- ===== src/Tls/Session.antt =====
-- A connection over its life on a worker: the receive policy of src/tls/receive/policy.rs with the
-- reads and the eof of src/tls/protocol.rs, and the requests to the send path, in any order.
pub mod Rule
pub mod Life
pub mod Latched
pub mod Accepted
pub mod Counts
pub mod Reads
pub mod Handing
pub mod Delivered
pub mod Ended
pub mod Handed
pub mod Shut
pub mod Fed
use tls.Base.{
  ℕ, zero, suc, ◌+◌, Bool, true, false, Option, none, some, Result, ok, err, List, [], ◌∷◌,
}
use tls.Outside.{Outside}
use tls.Outside.Progress.{Progress}
use tls.Outside.Vectored.{Vectored}
use tls.Outside.Slots.{Slots}
use tls.Outside.Chunks.{Chunks}
use tls.Error.{Error}
use tls.State.Staged.{Release}
use tls.State.Buffers
use tls.Tls.{Connection, peer_eof}
use tls.Tls.Link.{Link, Processed, output, terminal}
use tls.Tls.Protocol.{Request, serve}
use tls.Tls.Receive.{read_batch, retain}
use tls.Tls.Waiters.{
  Resource, recv, handshake_egress, Lanes, Queue, QueueCall, call, register, cancel, wake,
}
use tls.Tls.Policy.{
  Worker, Transaction, Outcome, is_ready, is_blocked, is_failed, Reader, try_reserve,
  complete_unread, process,
}
use tls.Tls.Policy.Lent.{kept_slots}

module _ ⦃o : Outside⦄ ⦃s : Slots⦄ ⦃l : Lanes⦄ where
  open o use {Reserve}
  open l use {Held, Target, EntryError}

  -- Ingress::eof.
  unfoldable pub end_of_peer : Connection → Processed (Unit {0}) × Connection
  end_of_peer conn =
      let (r, conn') = peer_eof conn in
      elim r [ ok _ ↦ (output tt, conn') | err cause ↦ (terminal tt cause, conn') ]

  -- Policy::cancel, release_recv and release_send, and Blocked::register.
  pub cancel_wait : Worker → Target → Worker
  cancel_wait w target = record w { queue = cancel w.queue target }

  pub release_recv : Worker → Worker
  release_recv w = record w { queue = wake w.queue recv }

  pub release_send : Worker → Worker
  release_send w = record w { queue = wake w.queue handshake_egress }

  pub register_blocked : Worker → Resource → Held → Result EntryError Worker
  register_blocked w kind credit = elim (register w.queue kind credit) [
    | err cause ↦ err cause
    | ok queue ↦ ok (record w { queue = queue })
  ]

  -- The worker, and the receive slots that plaintext handed out still holds.
  pub record Session : Type 0 where
    pub worker : Worker
    pub kept : ℕ

  -- The slots that a read has kept.
  abbrev pub kept_by :
      {T : Type 0} → Option (T × Result Error (Unit {0}) × Release × Connection) → ℕ
  kept_by none = 0
  kept_by (some (x, r, freed, conn)) = kept_slots freed

  -- One who is blocked waits, if it has a credit and its slot is vacant.
  pub wait_for : Session → Worker → Resource → Option Held → Session
  unfolding register_blocked
  wait_for st w kind none = record st { worker = w }
  wait_for st w kind (some credit) = elim (register_blocked w kind credit) [
    | err cause ↦ record st { worker = w }
    | ok w' ↦ record st { worker = w' }
  ]

  -- What the runtime does with the outcome of Policy::try_reserve: Ingress::process or read_lease
  -- with `read`. `none` is a fault of the read.
  pub receive_outcome : {T : Type 0} → Reader T → Option Held → Session → Outcome → Option Session
  unfolding wait_for
  receive_outcome read credit st (is_failed cause w) = some (record st { worker = w })
  receive_outcome read credit st (is_blocked kind w) = some (wait_for st w kind credit)
  receive_outcome read credit st (is_ready txn) = elim (process read txn) [
    | none ↦ none
    | some (processed, w) ↦
        some (record { worker = w; kept = kept_by (read txn.worker.conn txn.lease) + st.kept })
  ]

  pub receive_with : {T : Type 0} → Reader T → Bool → Option Held → Session → Option Session
  unfolding receive_outcome
  receive_with read has_store credit st =
      receive_outcome read credit st (try_reserve has_store st.worker)

  -- A transaction that is admitted and completed without a read.
  pub abandon_outcome : Option Held → Session → Outcome → Session
  unfolding wait_for
  abandon_outcome credit st (is_failed cause w) = record st { worker = w }
  abandon_outcome credit st (is_blocked kind w) = wait_for st w kind credit
  abandon_outcome credit st (is_ready txn) = record st { worker = complete_unread txn }

  pub abandon : Bool → Option Held → Session → Session
  unfolding abandon_outcome
  abandon has_store credit st = abandon_outcome credit st (try_reserve has_store st.worker)

  -- Plaintext that was handed out is dropped: its slot goes back, and release_recv follows.
  pub drop_kept : Session → Session
  unfolding release_recv
  drop_kept st = elim st.kept [
    | zero ↦ st
    | suc rest ↦ record {
      worker = release_recv (record st.worker { receive = Buffers.return_slot st.worker.receive });
      kept = rest;
    }
  ]

module _ ⦃o : Outside⦄ ⦃s : Slots⦄ ⦃l : Lanes⦄ ⦃k : Chunks⦄ ⦃d : Progress⦄ ⦃v : Vectored⦄ where
  open l use {Held, Target}

  -- What happens to a connection. `has_store` says that the caller lends the send buffer.
  pub data Event : Type 0 where
    sends : Request → Event
    reads leases : (has_store : Bool) → Option Held → List ℕ → Event
    abandons : (has_store : Bool) → Option Held → Event
    peer_ends drops frees_send : Event
    cancels_wait : Target → Event
    takes_waiter : Resource → Event

  -- The worker after a request to the send path.
  pub sent : Worker → Request → Worker
  sent w request =
      let link : Link = record { conn = w.conn; store = w.store; pool = w.pool } in
      let after = serve link request in
      record w { conn = after.conn; store = after.store; pool = after.pool }

  pub step : Session → Event → Option Session
  unfolding sent receive_with abandon drop_kept cancel_wait release_send
  step st (sends request) = some (record st { worker = sent st.worker request })
  step st (reads has_store credit bytes) =
      receive_with (λ conn lease. read_batch conn bytes lease) has_store credit st
  step st (leases has_store credit bytes) =
      receive_with (λ conn lease. retain conn bytes lease) has_store credit st
  step st (abandons has_store credit) = some (abandon has_store credit st)
  step st peer_ends =
      some (record st { worker = record st.worker { conn = (end_of_peer st.worker.conn).1 } })
  step st drops = some (drop_kept st)
  step st frees_send = some (record st { worker = release_send st.worker })
  step st (cancels_wait target) = some (record st { worker = cancel_wait st.worker target })
  step st (takes_waiter kind) = some (record st {
    worker = record st.worker { queue = call st.worker.queue (QueueCall.takes kind) };
  })

  pub live : Session → List Event → Option Session
  unfolding step
  live st [] = some st
  live st (e ∷ es) = elim (step st e) [ none ↦ none | some st' ↦ live st' es ]
