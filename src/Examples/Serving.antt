-- ===== src/Examples/Serving.antt =====
-- The theorems of the worker at concrete inputs.
use tls.Base.{
  ℕ, ◌+◌, ◌*◌, ◌≤◌, ◌<◌, ◌≡◌, refl, true, false, none, some, ok, List, [], ◌∷◌, ◌==◌, arith,
}
use tls.Staging.{max_plaintext, tls_staging_cap}
use tls.Examples.Toy.{ToyCursor, toy, toy_pools}
use tls.Examples.ToyWorker.{
  greeting, toy_slots, toy_slot_laws, toy_lanes, toy_lane_laws, toy_roles, toy_session_laws,
  toy_layouts,
}
use tls.State.Staged.{released}
use tls.State.Buffers
use tls.Tls.{Connection, SendState}
use tls.Tls.Link.{Processed}
use tls.Tls.Receive.{Batch}
use tls.Tls.Senders.Slots.{slots}
use tls.Tls.Waiters.{
  recv, handshake_egress, Queue, QueueCall, registers, takes, wakes, cancels, calls,
}
use tls.Tls.Waiters.Credits.{tally, claims, ends, Balanced, calls-Balanced}
use tls.Tls.Policy.{Worker, Transaction, is_ready, process}
use tls.Tls.Policy.Lent.{send_slots, receive_slots, kept_slots, process-slots}
use tls.Tls.Endpoint.Layout.{
  Limits, Plan, Layout, held_records, recv_request, send_request, payload,
}
use tls.Tls.Endpoint.Layout.Bounds.{Roomy, layout-sizes, payload-exact}
use tls.Tls.Endpoint.Ready.{ready, Served, ready-Served}
use tls.Tls.Endpoint.Open.{Disposition, given_back, consumed, Runtime, open_connection}
use tls.Tls.Endpoint.Open.Cached.{Caches, open_connection-Caches}
use tls.Tls.Endpoint.Open.Loans.{Leaves, open_connection-Leaves}

abbrev empty_queue : Queue
empty_queue = record { waiters = record { receiving = []; sending = [] }; fates = [] }

abbrev history : List QueueCall
history =
    registers recv 5
    ∷ registers handshake_egress 6
    ∷ registers recv 7
    ∷ wakes recv
    ∷ cancels 7
    ∷ takes handshake_egress
    ∷ []

empty_queue-Balanced : Balanced toy_lane_laws (λ h. h == 7) empty_queue
unfolding tally claims ends
empty_queue-Balanced = refl

calls-Balanced_example : Balanced toy_lane_laws (λ h. h == 7) (calls empty_queue history)
calls-Balanced_example =
    calls-Balanced toy_lane_laws (λ h. h == 7) empty_queue history empty_queue-Balanced

abbrev shaking_conn : Connection
shaking_conn = record {
  native = greeting;
  peer_closed = false;
  local_closed = false;
  failed = false;
}

abbrev worker : Worker
worker = record {
  conn = shaking_conn;
  store = record { buffer = none };
  receive = Buffers.is_fixed 2;
  pool = 1;
  queue = record { waiters = record { receiving = 5 ∷ []; sending = 6 ∷ [] }; fates = [] };
}

abbrev out : ToyCursor
out = record { bytes = []; room = 8 }

abbrev txn : Transaction (List ℕ)
txn = record { worker = record worker { pool = 0 }; loan = some out; lease = [] }

abbrev batch : Batch
batch = record { owned_chunk = none; plain = some (4 ∷ []) }

process-slots_example :
    (w : Worker) × (p : Processed Batch) × (process
        (λ conn lease. some (batch, ok tt, released, conn))
        txn
      ≡ some (p, w))
    × (slots w.store w.pool ≡ send_slots (is_ready txn))
    × (kept_slots released + Buffers.available w.receive ≡ receive_slots (is_ready txn))
process-slots_example =
    process-slots toy_pools toy_slot_laws (λ conn lease. some (batch, ok tt, released, conn)) txn
      refl

abbrev limits : Limits
limits = record { connections = 10; resident = 100000 }

abbrev plan : Plan
plan = record { staged = none; send_max = 128; growing = none }

layout-sizes_example :
    (recv_request plan limits ≡ held_records plan limits + 1)
    × Roomy none (held_records plan limits) limits
    × (0 < send_request plan limits)
    × (send_request plan limits ≤ 10)
layout-sizes_example = layout-sizes plan limits (record {
  staged_count = tt;
  some_connection = omega arith;
  some_send = omega arith;
  resident_word = omega arith;
})

abbrev sizes : Layout
sizes = record { recv_layout = 11; send_layout = 10; growing = none }

payload-exact_example : payload sizes ≡ 11 * max_plaintext + 10 * tls_staging_cap
payload-exact_example = payload-exact sizes (omega arith) (omega arith)

abbrev take_over : Connection → SendState → Disposition ℕ
take_over conn store = consumed 5

abbrev run : Runtime
run = record { pending = none; sessions = 1; pool = 0; role = true }

open_connection-Leaves_example :
    Leaves toy_pools toy_session_laws 0 1 (open_connection take_over run)
open_connection-Leaves_example = open_connection-Leaves toy_pools toy_session_laws take_over run

abbrev keep_cached : Connection → SendState → Disposition ℕ
keep_cached conn store = given_back 5 conn store

abbrev free : Runtime
free = record run { pool = 2 }

open_connection-Caches_example : Caches keep_cached free (open_connection keep_cached free)
open_connection-Caches_example = open_connection-Caches keep_cached free

ready-Served_example : Served worker.queue worker.receive 1 (ready worker.queue worker.receive 1)
ready-Served_example = ready-Served worker.queue worker.receive 1
