-- ===== src/Examples/Waking.antt =====
-- What a receive wakes, in the small model.
use tls.Base.{◌≡◌, refl, false, none, some, ok, List, ℕ, [], ◌∷◌}
use tls.Examples.Toy.{ToyCursor, toy, toy_pools}
use tls.Examples.ToyWorker.{greeting, toy_slots, toy_slot_laws}
use tls.Examples.Waiting.{line_lanes, line_turns}
use tls.State.Staged.{released}
use tls.State.Buffers
use tls.Tls.{Connection}
use tls.Tls.Link.{Processed}
use tls.Tls.Receive.{Batch}
use tls.Tls.Policy.{Worker, Transaction, process}
use tls.Tls.Policy.Woken.{Announces, process-Announces}

abbrev shaking_conn : Connection
shaking_conn = record {
  native = record greeting { sealed = [] };
  peer_closed = false;
  local_closed = false;
  failed = false;
}

abbrev worker : Worker
worker = record {
  conn = shaking_conn;
  store = record { buffer = none };
  receive = Buffers.is_fixed 0;
  pool = 0;
  queue = record { waiters = record { receiving = 5 ∷ 7 ∷ []; sending = 6 ∷ [] }; fates = [] };
}

abbrev out : ToyCursor
out = record { bytes = []; room = 8 }

abbrev txn : Transaction (List ℕ)
txn = record { worker = worker; loan = some out; lease = [] }

abbrev batch : Batch
batch = record { owned_chunk = none; plain = some (4 ∷ []) }

process-Announces_example :
    (w : Worker) × (p : Processed Batch) × (process
        (λ conn lease. some (batch, ok tt, released, conn))
        txn
      ≡ some (p, w))
    × Announces toy_pools toy_slot_laws line_turns worker.receive 0 worker.queue w
process-Announces_example =
    process-Announces toy_pools toy_slot_laws line_turns
      (λ conn lease. some (batch, ok tt, released, conn)) txn refl refl
