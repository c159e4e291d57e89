-- ===== src/Tls/Policy/Rule.antt =====
-- A rule for a receive: what a read, a flush and a failure keep of a connection, it keeps whether it
-- is admitted or not.
use tls.Base.{
  ◌≡◌, refl, sym, subst, inl, inr, Bool-cases, Option-cases, Result-cases, Bool, ◌&&◌, Option, none,
  some, Result, and, arith, true,
}
use tls.Outside.{Outside}
use tls.Outside.Slots.{Slots}
use tls.Error.{Error}
use tls.State.Staged.{Release, released, retained}
use tls.State.Buffers
use tls.Tls.{Connection, reserve}
use tls.Tls.Link.{Processed}
use tls.Tls.Senders.Rule.{SendKeeps, emit_into-Kept}
use tls.Tls.Waiters.{Lanes}
use tls.Tls.Policy.{
  Worker, Transaction, Outcome, is_ready, is_blocked, is_failed, with_slot, try_reserve, flush_loan,
  complete_loan, release, complete_unread, Reader, returned, finish, process,
}
use tls.Tls.Receive.Rule.{ReadKept, ReaderKeeps}

module _ ⦃o : Outside⦄ ⦃s : Slots⦄ ⦃l : Lanes⦄ where
  open o use {Cursor, Reserve, is_handshaking}

  abbrev pub outcome_conn : Outcome → Connection
  outcome_conn (is_ready txn) = txn.worker.conn
  outcome_conn (is_blocked kind w) = w.conn
  outcome_conn (is_failed cause w) = w.conn

  with_slot-conn :
      (b : Bool) (w : Worker) (lease : Reserve) → outcome_conn (with_slot b w lease) ≡ w.conn
  unfolding with_slot
  with_slot-conn b w lease = elim (Bool-cases (is_handshaking w.conn.native && b)) [
    | inr f ↦ rw (f, with_slot) refl
    | inl f ↦ elim (Option-cases (reserve w.store w.pool)) [
      | inl g ↦ rw (f, g, with_slot) refl
      | inr ((c, store', pool'), g) ↦ rw (f, g, with_slot) refl
    ]
  ]

  complete_loan-conn : (loan : Option Cursor) (w : Worker) → (complete_loan loan w).conn ≡ w.conn
  unfolding complete_loan
  complete_loan-conn none w = refl
  complete_loan-conn (some c) w = ground arith

  pub release-conn :
      {S : Type 0} (t : Transaction S) (freed : Release) → (release t freed).conn ≡ t.worker.conn
  unfolding release
  release-conn t released = complete_loan-conn t.loan _
  release-conn t retained = complete_loan-conn t.loan _

  pub complete_unread-conn : (t : Transaction Reserve) → (complete_unread t).conn ≡ t.worker.conn
  unfolding complete_unread
  complete_unread-conn t =
      release-conn
        (record t { worker = record t.worker { receive = Buffers.return_slot t.worker.receive } })
        released

  pub try_reserve-Kept :
      (P : Connection → Type 0)
      → ((conn : Connection) → P conn → P (record conn { failed = true }))
      → (b : Bool) (w : Worker) → P w.conn
      → P (outcome_conn (try_reserve b w))
  unfolding try_reserve
  try_reserve-Kept P on_fail b w h = elim (Result-cases (Buffers.try_reserve w.receive)) [
    | inr (c, f) ↦ rw (f, try_reserve) (on_fail w.conn h)
    | inl (none, f) ↦ rw (f, try_reserve) h
    | inl (some (lease, r'), f) ↦
        let w' : Worker = record w { receive = r' } in
        rw (f, try_reserve) (subst P (sym (with_slot-conn b w' lease)) h)
  ]

  abbrev pub ProcessKept :
      {T : Type 0} → (Connection → Type 0) → Option (Processed T × Worker) → Type 0
  ProcessKept P none = Unit
  ProcessKept P (some (r, w)) = P w.conn

module _ ⦃o : Outside⦄ ⦃s : Slots⦄ ⦃l : Lanes⦄ (P : Connection → Type 0) (sends : SendKeeps P) where
  open o use {Reserve}

  flush_loan-Kept :
      {S : Type 0} (t : Transaction S) → P t.worker.conn → P (flush_loan t).1.worker.conn
  unfolding flush_loan
  flush_loan-Kept t h = elim (Option-cases t.loan) [
    | inl e ↦ rw (e, flush_loan) h
    | inr (c, e) ↦ rw (e, flush_loan) (emit_into-Kept P sends t.worker.conn c h)
  ]

  pub finish-Kept :
      {T : Type 0} (x : T) (r : Result Error (Unit {0})) (t : Transaction Release)
      → P t.worker.conn
      → P (finish x r t).1.conn
  unfolding finish
  finish-Kept x r t h =
      let kept =
        subst P (sym (release-conn (flush_loan t).1 (flush_loan t).1.lease))
          (flush_loan-Kept t h) in
      elim (Result-cases (and r (flush_loan t).0)) [
        | inr (_, f) ↦ rw (f, finish) kept
        | inl (_, f) ↦ elim (Bool-cases (flush_loan t).1.worker.conn.peer_closed) [
          | inl g ↦ rw (f, g, finish) kept
          | inr g ↦ rw (f, g, finish) kept
        ]
      ]

  pub process_after :
      {T : Type 0} (read : Reader T) (t : Transaction Reserve) {x : T} {r : Result Error (Unit {0})}
      {freed : Release} {conn : Connection}
      → read t.worker.conn t.lease ≡ some (x, r, freed, conn)
      → P conn
      → (p : Processed T) × (w : Worker) × (process read t ≡ some (p, w)) × P w.conn
  unfolding process
  process_after read t {x} {r} {freed} {conn} e h =
      let w : Worker = record t.worker { conn = conn; receive = returned freed t.worker.receive } in
      let t' : Transaction Release = record { worker = w; loan = t.loan; lease = freed } in
      ((finish x r t').0, (finish x r t').1, rw (e, process) refl, finish-Kept x r t' h)

  pub process-Kept :
      {T : Type 0} (read : Reader T) (t : Transaction Reserve)
      → ReaderKeeps P read
      → P t.worker.conn
      → ProcessKept P (process read t)
  unfolding process
  process-Kept read t reader h =
      let kept = reader t.worker.conn t.lease h in
      elim (Option-cases (read t.worker.conn t.lease)) [
        | inl e ↦ rw (e, process) tt
        | inr ((x, r, freed, conn), e) ↦
            let (p, w, f, after) = process_after read t e (subst (ReadKept P) e kept) in rw f after
      ]

  pub complete_unread-Kept :
      (t : Transaction Reserve) → P t.worker.conn → P (complete_unread t).conn
  complete_unread-Kept t h = subst P (sym (complete_unread-conn t)) h
