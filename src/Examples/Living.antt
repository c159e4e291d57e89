-- ===== src/Examples/Living.antt =====
-- The life of a connection in the small model.
use tls.Base.{
  refl, ◌⊎◌, Extends, ℕ, zero, suc, ◌≡◌, true, false, none, some, ok, List, [], ◌∷◌, ◌++◌, arith,
}
use tls.Examples.Toy.{
  ToyNative, toy, toy_plains, toy_plans, toy_pools, toy_progress, toy_reserves, toy_reads,
}
use tls.Examples.ToyChunks.{toy_chunks, toy_chunk_laws}
use tls.Examples.ToyVectored.{toy_vectored, toy_vectored_laws}
use tls.Examples.ToyWorker.{toy_slots, toy_slot_laws, toy_lanes, toy_borrow}
use tls.State.Buffers
use tls.Tls.Protocol.{prepares, flushes}
use tls.Tls.Policy.Fresh.{FreshLaws}
use tls.Tls.Session.{Session, Event, sends, reads, leases, abandons, peer_ends, drops, live}
use tls.Tls.Encrypt.Silent.{SendLaws}
use tls.Tls.Encrypt.Plaintext.{is_shut}
use tls.State.Input.Ended.{has_ended}
use tls.Tls.Session.Accepted.{event_sends, live-Sent}
use tls.Tls.Session.Ended.{live-Ended}
use tls.Examples.Reading.{small_feeds}
use tls.Tls.Senders.Fed.{SendFeedLaws}
use tls.Tls.Session.Fed.{Fronts, event_inputs, live-Fed}
use tls.Tls.Session.Handed.{live-Handed}
use tls.Tls.Session.Handing.{event_bytes}
use tls.Tls.Session.Life.{life_sum}
use tls.Tls.Session.Rule.{conn_of}
use tls.Tls.Session.Shut.{live-Shut}
use tls.Outside.Laws.{QuietLaws}
use tls.Tls.Session.Counts.{LifeLaws, Counts, live-Counts}

borrow_empty : (p q : ℕ) (lease : List ℕ) → toy_borrow p ≡ some (lease, q) → lease ≡ []
borrow_empty zero q lease e = ground arith
borrow_empty (suc p) q lease e = ground arith

reserved_empty :
    (r r' : Buffers.Receive) (lease : List ℕ)
    → Buffers.try_reserve r ≡ ok (some (lease, r'))
    → lease ≡ []
unfolding Buffers.try_reserve
reserved_empty (Buffers.is_fixed zero) r' lease e = absurd (ground arith)
reserved_empty (Buffers.is_fixed (suc p)) r' lease e = ground arith
reserved_empty (Buffers.is_growing p) r' lease e = ground (arith, e)

abbrev small_fresh : FreshLaws
small_fresh = record { try_reserve-empty = reserved_empty }

abbrev small_life : LifeLaws
small_life = record {
  pools = toy_pools;
  slots_of = toy_slot_laws;
  fresh = small_fresh;
  chunks = toy_chunk_laws;
  reserves = toy_reserves;
  reading = toy_reads;
}

abbrev quiet : ToyNative
quiet = record {
  sealed = [];
  incoming = [];
  plain = [];
  accepted = [];
  handed = [];
  shaking = false;
}

abbrev start : Session
start = record {
  worker = record {
    conn = record { native = quiet; peer_closed = false; local_closed = false; failed = false };
    store = record { buffer = none };
    receive = Buffers.is_fixed 1;
    pool = 2;
    queue = record { waiters = record { receiving = []; sending = [] }; fates = [] };
  };
  kept = 0;
}

abbrev events : List Event
events =
    reads false none (4 ∷ 5 ∷ [])
    ∷ sends (prepares (1 ∷ 2 ∷ []))
    ∷ leases true (some 5) (6 ∷ [])
    ∷ sends flushes
    ∷ drops
    ∷ abandons true none
    ∷ peer_ends
    ∷ []

live-Counts_example : Counts 2 1 (live start events)
unfolding Buffers.available
live-Counts_example = live-Counts small_life start events

small_sends : SendLaws toy_reads
small_sends = record {
  write_tls-delivered = λ n s. refl;
  write_vectored-delivered = λ n bs. refl;
  send_close_notify-delivered = λ n. refl;
}

live-Handed_example :
    (st' : Session) × (live start events ≡ some st')
    × Extends ([] ++ life_sum event_bytes start events) (conn_of st').native.handed
    × (((conn_of st').native.handed ≡ [] ++ life_sum event_bytes start events)
        ⊎ ((conn_of st').failed ≡ true))
live-Handed_example = live-Handed small_life small_sends start events

small_quiet : QuietLaws toy_plains
small_quiet = record {
  read_tls-accepted = λ n bs. refl;
  process-accepted = λ n. refl;
  fill_buf-accepted = λ n. refl;
  consume-accepted = λ n k. refl;
  send_close_notify-accepted = λ n. refl;
}

live-Sent_example :
    (st' : Session) × (live start events ≡ some st')
    × ((conn_of st').native.accepted ≡ [] ++ life_sum event_sends start events)
live-Sent_example =
    live-Sent toy_plains small_quiet small_life toy_plans toy_vectored_laws start events

-- The same connection, after a failure that left plaintext to be read.
abbrev failed_start : Session
failed_start = record start {
  worker = record start.worker {
    conn = record start.worker.conn { native = record quiet { plain = 3 ∷ [] }; failed = true };
  };
}

live-Ended_example :
    (st' : Session) × (live failed_start events ≡ some st')
    × (has_ended (conn_of st') ≡ true)
    × ((conn_of st').native.handed ≡ [])
    × (life_sum event_bytes failed_start events ≡ [])
live-Ended_example = live-Ended small_life small_sends failed_start events refl

live-Shut_example :
    (st' : Session) × (live failed_start events ≡ some st')
    × (is_shut (conn_of st') ≡ true)
    × ((conn_of st').native.accepted ≡ [])
    × (life_sum event_sends failed_start events ≡ [])
live-Shut_example =
    live-Shut small_life toy_plains small_quiet toy_plans toy_vectored_laws failed_start events refl

small_sends_fed : SendFeedLaws small_feeds
small_sends_fed = record {
  write_tls-received = λ n s. refl;
  write_vectored-received = λ n bs. refl;
  send_close_notify-received = λ n. refl;
}

live-Fed_example :
    (st' : Session) × (fed : List ℕ) × (live start events ≡ some st')
    × Fronts (life_sum event_inputs start events) fed
    × (small_feeds.received (conn_of st').native ≡ small_feeds.received quiet ++ fed)
live-Fed_example = live-Fed small_life small_feeds small_sends_fed start events
