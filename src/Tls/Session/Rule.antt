-- ===== src/Tls/Session/Rule.antt =====
-- A rule for a connection over its life: what a read, a flush, a failure and the end of the peer
-- keep of it, every event but the encryption of plaintext keeps.
use tls.Base.{
  ℕ, ◌≡◌, inl, inr, Option-cases, Result-cases, Bool, true, Option, none, some, List, [], ◌∷◌,
  subst, sym, arith,
}
use tls.Outside.{Outside}
use tls.Outside.Progress.{Progress}
use tls.Outside.Vectored.{Vectored}
use tls.Outside.Slots.{Slots}
use tls.Outside.Chunks.{Chunks}
use tls.State.Input.Rule.{ReadKeeps}
use tls.Tls.{Connection, peer_eof}
use tls.Tls.Link.{Link}
use tls.Tls.Encrypt.{Attempts, seal, one}
use tls.Tls.Encrypt.Vectored.{many}
use tls.Tls.Senders.{prepare, prepare_many}
use tls.Tls.Senders.Rule.{
  prepare_with-Kept, SendKeeps, after_send-Kept, settle-Kept, flush-Kept, prepare_drain-Kept,
  close-Kept,
}
use tls.Tls.Protocol.{
  Request, prepares, prepares_many, after, settles, flushes, drains, closes, serve,
}
use tls.Tls.Receive.Rule.{ReaderKeeps, read_batch-Kept, retain-Kept}
use tls.Tls.Receive.{read_batch, retain}
use tls.Tls.Waiters.{Resource, Lanes, register}
use tls.Tls.Policy.{Worker, Outcome, is_ready, is_blocked, is_failed, Reader, try_reserve, process}
use tls.Tls.Policy.Rule.{
  outcome_conn, try_reserve-Kept, ProcessKept, process-Kept, complete_unread-Kept,
}
use tls.Tls.Session.{
  Session, Event, sends, reads, leases, abandons, peer_ends, drops, frees_send, cancels_wait,
  takes_waiter, wait_for, register_blocked, receive_outcome, receive_with, abandon_outcome, abandon,
  drop_kept, sent, end_of_peer, step,
}

module _ ⦃o : Outside⦄ where
  pub peer_eof-Kept :
      (P : Connection → Type 0)
      → ((conn : Connection) → P conn → P (record conn { native = (o.read_tls conn.native []).1 }))
      → ((conn : Connection) → P conn → P (record conn { native = (o.fill_buf conn.native).1 }))
      → ((conn : Connection) → P conn → P (record conn { failed = true }))
      → (conn : Connection) → P conn
      → P (peer_eof conn).1
  unfolding peer_eof
  peer_eof-Kept P on_read_tls on_fill_buf on_fail conn h =
      let seen : Connection = record conn { native = (o.read_tls conn.native []).1 } in
      let h1 : P seen = on_read_tls conn h in
      let shown : Connection = record seen { native = (o.fill_buf seen.native).1 } in
      let h2 : P shown = on_fill_buf seen h1 in
      elim (Result-cases (o.read_tls conn.native []).0) [
        | inr (c, e) ↦ rw (e, peer_eof) h1
        | inl (_, e) ↦ elim (Result-cases (o.fill_buf seen.native).0) [
          | inr (c, f) ↦ rw (e, f, peer_eof) (on_fail shown h2)
          | inl ([], f) ↦ rw (e, f, peer_eof) h2
          | inl (x ∷ xs, f) ↦ rw (e, f, peer_eof) h2
        ]
      ]

module _ ⦃o : Outside⦄ ⦃k : Chunks⦄ where
  -- What reads, and the end of the peer, are to keep.
  pub record Reading (P : Connection → Type 0) : Type 0 where
    pub on_batch : (bytes : List ℕ) → ReaderKeeps P (λ conn lease. read_batch conn bytes lease)
    pub on_stream : (bytes : List ℕ) → ReaderKeeps P (λ conn lease. retain conn bytes lease)
    pub on_eof : (conn : Connection) → P conn → P (peer_eof conn).1

  pub reading_of : (P : Connection → Type 0) → ReadKeeps P → Reading P
  reading_of P keeps = record {
    on_batch = read_batch-Kept P keeps;
    on_stream = retain-Kept P keeps;
    on_eof =
        peer_eof-Kept P (λ conn h. keeps.on_read_tls conn [] h) keeps.on_fill_buf keeps.on_fail;
  }

module _ ⦃o : Outside⦄ ⦃s : Slots⦄ ⦃l : Lanes⦄ where
  -- The session after, if there is one.
  abbrev pub After : (Session → Type 0) → Option Session → Type 0
  After Q none = Unit
  After Q (some st) = Q st

  pub After-both :
      (P Q R : Session → Type 0) (r : Option Session)
      → ((st : Session) → P st → Q st → R st)
      → After P r
      → After Q r
      → After R r
  After-both P Q R none f h g = tt
  After-both P Q R (some st) f h g = f st h g

  abbrev pub link_of : Worker → Link
  link_of w = record { conn = w.conn; store = w.store; pool = w.pool }

  abbrev pub conn_of : Session → Connection
  conn_of st = st.worker.conn

  pub end_of_peer-conn : (conn : Connection) → (end_of_peer conn).1 ≡ (peer_eof conn).1
  unfolding end_of_peer
  end_of_peer-conn conn = ground arith

  pub drop_kept-conn : (st : Session) → conn_of (drop_kept st) ≡ conn_of st
  unfolding drop_kept
  drop_kept-conn st = ground arith

  module _ (P : Connection → Type 0) where
    pub wait_for-Kept :
        (st : Session) (w : Worker) (kind : Resource) (credit : Option l.Held)
        → P w.conn
        → P (conn_of (wait_for st w kind credit))
    unfolding wait_for register_blocked
    wait_for-Kept st w kind none h = h
    wait_for-Kept st w kind (some credit) h = elim (Result-cases (register w.queue kind credit)) [
      | inl (q, e) ↦ rw (e, wait_for) h
      | inr (c, e) ↦ rw (e, wait_for) h
    ]

    drop_kept-Kept : (st : Session) → P (conn_of st) → P (conn_of (drop_kept st))
    drop_kept-Kept st h = subst P (sym (drop_kept-conn st)) h

    end_of_peer-Kept :
        ((conn : Connection) → P conn → P (peer_eof conn).1)
        → (conn : Connection) → P conn
        → P (end_of_peer conn).1
    end_of_peer-Kept on_eof conn h = subst P (sym (end_of_peer-conn conn)) (on_eof conn h)

    module _ (sends : SendKeeps P) where
      receive_outcome-Kept :
          {T : Type 0} (read : Reader T)
          → ReaderKeeps P read
          → (credit : Option l.Held) (st : Session) (out : Outcome) → P (outcome_conn out)
          → After (λ st'. P (conn_of st')) (receive_outcome read credit st out)
      unfolding receive_outcome
      receive_outcome-Kept read reader credit st (is_failed cause w) h = h
      receive_outcome-Kept read reader credit st (is_blocked kind w) h =
          wait_for-Kept st w kind credit h
      receive_outcome-Kept read reader credit st (is_ready txn) h =
          let kept = process-Kept P sends read txn reader h in
          elim (Option-cases (process read txn)) [
            | inl e ↦ rw (e, receive_outcome) tt
            | inr (r, e) ↦ rw (e, receive_outcome) (subst (ProcessKept P) e kept)
          ]

      receive_with-Kept :
          {T : Type 0} (read : Reader T)
          → ReaderKeeps P read
          → (b : Bool) (credit : Option l.Held) (st : Session) → P (conn_of st)
          → After (λ st'. P (conn_of st')) (receive_with read b credit st)
      unfolding receive_with
      receive_with-Kept read reader b credit st h =
          receive_outcome-Kept read reader credit st (try_reserve b st.worker)
            (try_reserve-Kept P sends.on_fail b st.worker h)

      pub abandon_outcome-Kept :
          (credit : Option l.Held) (st : Session) (out : Outcome)
          → P (outcome_conn out)
          → P (conn_of (abandon_outcome credit st out))
      unfolding abandon_outcome
      abandon_outcome-Kept credit st (is_failed cause w) h = h
      abandon_outcome-Kept credit st (is_blocked kind w) h = wait_for-Kept st w kind credit h
      abandon_outcome-Kept credit st (is_ready txn) h = complete_unread-Kept P sends txn h

module _ ⦃o : Outside⦄ ⦃s : Slots⦄ ⦃l : Lanes⦄ ⦃k : Chunks⦄ ⦃d : Progress⦄ ⦃v : Vectored⦄
    (P : Connection → Type 0) where
  -- What is left to show of an event: that `P` is kept if it encrypts plaintext.
  abbrev pub Encrypts : Session → Event → Type 0
  Encrypts st (sends (prepares plain)) =
      P (conn_of st) → P (serve (link_of st.worker) (prepares plain)).conn
  Encrypts st (sends (prepares_many plain)) =
      P (conn_of st) → P (serve (link_of st.worker) (prepares_many plain)).conn
  Encrypts st _ = Unit

  -- An encryption that keeps `P` is enough.
  abbrev pub Seals : Attempts → Type 0
  Seals a =
      (conn : Connection) (out : o.Cursor) (plain : a.Left) → P conn → P (seal a conn out plain).1

  pub Encrypts-all :
      SendKeeps P → Seals one → Seals many → (st : Session) (e : Event) → Encrypts st e
  unfolding serve prepare prepare_many
  Encrypts-all keeps on_one on_many st (sends (prepares plain)) =
      λ h. prepare_with-Kept P keeps one on_one (link_of st.worker) plain h
  Encrypts-all keeps on_one on_many st (sends (prepares_many plain)) =
      λ h. prepare_with-Kept P keeps many on_many (link_of st.worker) plain h
  Encrypts-all keeps on_one on_many st (sends (after n)) = tt
  Encrypts-all keeps on_one on_many st (sends (settles n draining)) = tt
  Encrypts-all keeps on_one on_many st (sends flushes) = tt
  Encrypts-all keeps on_one on_many st (sends (drains draining)) = tt
  Encrypts-all keeps on_one on_many st (sends closes) = tt
  Encrypts-all keeps on_one on_many st (reads b credit bytes) = tt
  Encrypts-all keeps on_one on_many st (leases b credit bytes) = tt
  Encrypts-all keeps on_one on_many st (abandons b credit) = tt
  Encrypts-all keeps on_one on_many st peer_ends = tt
  Encrypts-all keeps on_one on_many st drops = tt
  Encrypts-all keeps on_one on_many st frees_send = tt
  Encrypts-all keeps on_one on_many st (cancels_wait target) = tt
  Encrypts-all keeps on_one on_many st (takes_waiter kind) = tt

  -- What is left to show of an event that reads, or sees the end of the peer.
  abbrev pub Admits : Event → Type 0
  Admits (reads b credit bytes) = ReaderKeeps P (λ conn lease. read_batch conn bytes lease)
  Admits (leases b credit bytes) = ReaderKeeps P (λ conn lease. retain conn bytes lease)
  Admits peer_ends = (conn : Connection) → P conn → P (peer_eof conn).1
  Admits _ = Unit

  Admits-all : Reading P → (e : Event) → Admits e
  Admits-all reading (reads b credit bytes) = reading.on_batch bytes
  Admits-all reading (leases b credit bytes) = reading.on_stream bytes
  Admits-all reading peer_ends = reading.on_eof
  Admits-all reading (sends request) = tt
  Admits-all reading (abandons b credit) = tt
  Admits-all reading drops = tt
  Admits-all reading frees_send = tt
  Admits-all reading (cancels_wait target) = tt
  Admits-all reading (takes_waiter kind) = tt

  module _ (sending : SendKeeps P) where
    sent-Kept :
        (st : Session) (request : Request)
        → Encrypts st (sends request)
        → P (conn_of st)
        → P (sent st.worker request).conn
    unfolding sent serve
    sent-Kept st (prepares plain) g h = g h
    sent-Kept st (prepares_many plain) g h = g h
    sent-Kept st (after n) g h = after_send-Kept P sending (link_of st.worker) n h
    sent-Kept st (settles n draining) g h = settle-Kept P sending (link_of st.worker) n draining h
    sent-Kept st flushes g h = flush-Kept P sending (link_of st.worker) h
    sent-Kept st (drains draining) g h = prepare_drain-Kept P sending (link_of st.worker) draining h
    sent-Kept st closes g h = close-Kept P sending (link_of st.worker) h

    pub event-Kept :
        (st : Session) (e : Event)
        → Encrypts st e
        → Admits e
        → P (conn_of st)
        → After (λ st'. P (conn_of st')) (step st e)
    unfolding step abandon
    event-Kept st (sends request) g a h = sent-Kept st request g h
    event-Kept st (reads b credit bytes) g a h = receive_with-Kept P sending _ a b credit st h
    event-Kept st (leases b credit bytes) g a h = receive_with-Kept P sending _ a b credit st h
    event-Kept st (abandons b credit) g a h =
        abandon_outcome-Kept P sending credit st (try_reserve b st.worker)
          (try_reserve-Kept P sending.on_fail b st.worker h)
    event-Kept st peer_ends g a h = end_of_peer-Kept P a (conn_of st) h
    event-Kept st drops g a h = drop_kept-Kept P st h
    event-Kept st frees_send g a h = h
    event-Kept st (cancels_wait target) g a h = h
    event-Kept st (takes_waiter kind) g a h = h

  pub step-Kept :
      Reading P
      → SendKeeps P
      → (st : Session) (e : Event) → Encrypts st e
      → P (conn_of st)
      → After (λ st'. P (conn_of st')) (step st e)
  step-Kept reading sending st e g h = event-Kept sending st e g (Admits-all reading e) h
