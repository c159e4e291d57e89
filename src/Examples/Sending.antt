-- ===== src/Examples/Sending.antt =====
-- The theorems of the send path at concrete inputs, and runs of its code.
use tls.Base.{ℕ, ◌≡◌, refl, true, false, none, some, List, [], ◌∷◌, ◌++◌, ◌≢◌, arith}
use tls.Examples.Toy.{
  ToyNative, ToyCursor, toy, toy_progress, toy_cursors, toy_pools, toy_writes, toy_plains,
  toy_plans,
}
use tls.Examples.ToyVectored.{ToyMany, toy_vectored, toy_vectored_laws}
use tls.State
use tls.State.Output.{Writes, write_all_vectored-Writes}
use tls.State.Moved.{Moved, drain-Moved}
use tls.Tls.{Connection}
use tls.Tls.Buffer.{is_tidy}
use tls.Tls.Link.{Link}
use tls.Tls.Encrypt.{encrypt_loop}
use tls.State.Drain.{Ends, drain_loop-Ends}
use tls.Tls.Encrypt.Total.{encrypt_loop-total}
use tls.Tls.Senders.{prepare, prepare_many}
use tls.Tls.Senders.Plaintext.{prepare-plaintext, prepare_many-plaintext}
use tls.Tls.Senders.Failure.{Reports, prepare-Reports}
use tls.Tls.Protocol.{Request, prepares, prepares_many, after, settles, flushes, closes, run}
use tls.Tls.Protocol.Pipe.{Reach, pipe, socket, run-Reach}
use tls.Tls.Protocol.Loans.{run-tidy}

abbrev busy : ToyNative
busy = record {
  sealed = 7 ∷ 8 ∷ [];
  incoming = [];
  plain = [];
  accepted = [];
  handed = [];
  shaking = false;
}

abbrev half_full : ToyCursor
half_full = record { bytes = 5 ∷ 6 ∷ []; room = 3 }

abbrev open_conn : Connection
open_conn = record { native = busy; peer_closed = false; local_closed = false; failed = false }

abbrev shut_conn : Connection
shut_conn = record open_conn { local_closed = true }

abbrev link : Link
link = record { conn = open_conn; store = record { buffer = none }; pool = 2 }

abbrev shut_link : Link
shut_link = record link { conn = shut_conn }

abbrev half_sent : Link
half_sent = record link { store = record { buffer = some half_full } }

abbrev message : List ℕ
message = 1 ∷ 2 ∷ 3 ∷ []

abbrev two_buffers : ToyMany
two_buffers = record { first = 1 ∷ 2 ∷ []; second = 3 ∷ [] }

abbrev history : List Request
history =
    prepares message ∷ after 4 ∷ prepares_many two_buffers ∷ flushes ∷ settles 1 true ∷ closes ∷ []

write_all_vectored-Writes_example :
    Writes toy_cursors 0 half_full
      (1 ∷ 2 ∷ 3 ∷ 4 ∷ [])
      (State.write_all_vectored half_full ((1 ∷ 2 ∷ []) ∷ (3 ∷ 4 ∷ []) ∷ []))
write_all_vectored-Writes_example =
    write_all_vectored-Writes toy_cursors half_full ((1 ∷ 2 ∷ []) ∷ (3 ∷ 4 ∷ []) ∷ [])

drain-Moved_example :
    let (r, n, c) = State.drain busy half_full in Moved toy_writes busy half_full r n c
drain-Moved_example = drain-Moved toy_cursors toy_writes busy half_full

encrypt_loop-total_example : encrypt_loop 4 open_conn half_full message ≢ none
encrypt_loop-total_example =
    encrypt_loop-total toy_plains toy_plans 4 open_conn half_full message (omega arith)

prepare-plaintext_example :
    (prepare link message).1.conn.native.accepted ++ (prepare link message).2 ≡ 1 ∷ 2 ∷ 3 ∷ []
prepare-plaintext_example = prepare-plaintext toy_plains toy_plans link message

prepare_many-plaintext_example :
    let (_, l, plain) = prepare_many link two_buffers in
    l.conn.native.accepted ++ (plain.first ++ plain.second) ≡ 1 ∷ 2 ∷ 3 ∷ []
prepare_many-plaintext_example =
    prepare_many-plaintext toy_plains toy_vectored_laws link two_buffers

prepare-Reports_example : Reports open_conn (prepare link message).0 (prepare link message).1.conn
prepare-Reports_example = prepare-Reports link message

drain_loop-Ends_example : Ends toy_writes busy half_full (State.drain_loop 4 busy half_full)
drain_loop-Ends_example = drain_loop-Ends toy_cursors toy_writes 4 busy half_full (omega arith)

run-tidy_example : is_tidy (run link history).store ≡ true
run-tidy_example = run-tidy link history refl

run-Reach_example :
    Reach
      (pipe toy_cursors toy_pools toy_writes link [])
      (pipe toy_cursors toy_pools toy_writes (run link history) ([] ++ socket link history))
run-Reach_example = run-Reach toy_cursors toy_pools toy_writes link history []
