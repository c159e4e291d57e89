-- ===== src/Tls/Session/Counts.antt =====
-- The slots of both pools over the life of a connection.
use tls.Base.{
  ℕ, ◌+◌, ◌≡◌, refl, ap, subst, inl, inr, Option-cases, Result-cases, Bool, Option, none, some,
  Result, List, [], ◌∷◌, arith,
}
use tls.Outside.{Outside}
use tls.Outside.Laws.{PoolLaws, ReserveLaws, ReadLaws}
use tls.Outside.Progress.{Progress}
use tls.Outside.Vectored.{Vectored}
use tls.Outside.Slots.{Slots, SlotLaws}
use tls.Outside.Chunks.{Chunks, ChunkLaws}
use tls.Error.{Error}
use tls.State.Staged.{Release}
use tls.State.Buffers
use tls.Tls.{Connection}
use tls.Tls.Senders.Slots.{slots}
use tls.Tls.Protocol.Loans.{serve-slots}
use tls.Tls.Receive.{read_batch, retain}
use tls.Tls.Receive.Delivery.{read_batch-delivers, retain-delivers}
use tls.Tls.Waiters.{Resource, Lanes, register}
use tls.Tls.Policy.{Worker, Outcome, is_ready, is_blocked, is_failed, Reader, try_reserve}
use tls.Tls.Policy.Lent.{
  send_slots, receive_slots, try_reserve-slots, complete_unread-slots, process-slots,
  return_slot-available,
}
use tls.Tls.Policy.Fresh.{FreshLaws, LeaseFresh, try_reserve-LeaseFresh}
use tls.Tls.Session.{
  Session, Event, sends, reads, leases, abandons, peer_ends, drops, frees_send, cancels_wait,
  takes_waiter, wait_for, register_blocked, receive_outcome, receive_with, abandon_outcome, abandon,
  drop_kept, sent, step, live,
}

module _ ⦃o : Outside⦄ ⦃s : Slots⦄ ⦃l : Lanes⦄ where
  open o use {Reserve, chunk_slice, freeze, is_handshaking}

  -- The free and held slots of both pools, where plaintext that was handed out holds its own.
  abbrev pub send_count : Session → ℕ
  send_count st = slots st.worker.store st.worker.pool

  abbrev pub receive_count : Session → ℕ
  receive_count st = st.kept + Buffers.available st.worker.receive

  -- A session has so many slots, and there is one.
  abbrev pub Counts : ℕ → ℕ → Option Session → Type 0
  Counts n m none = ⊥
  Counts n m (some st) = (send_count st ≡ n) × (receive_count st ≡ m)

  wait_for-Counts :
      (st : Session) (w : Worker) (kind : Resource) (credit : Option l.Held)
      → Counts
          (slots w.store w.pool)
          (st.kept + Buffers.available w.receive)
          (some (wait_for st w kind credit))
  unfolding wait_for register_blocked
  wait_for-Counts st w kind none = (refl, refl)
  wait_for-Counts st w kind (some credit) = elim (Result-cases (register w.queue kind credit)) [
    | inl (q, e) ↦ rw (e, wait_for) (refl, refl)
    | inr (c, e) ↦ rw (e, wait_for) (refl, refl)
  ]

module _ ⦃o : Outside⦄ ⦃s : Slots⦄ ⦃l : Lanes⦄ (pools : PoolLaws) (laws : SlotLaws) where
  open o use {Reserve, chunk_slice, freeze}

  receive_outcome-Counts :
      {T : Type 0} (read : Reader T)
      → ((conn : Connection) (lease : Reserve)
          → chunk_slice (freeze lease) ≡ []
          → (r : T × Result Error (Unit {0}) × Release × Connection) × (read conn lease ≡ some r))
      → (credit : Option l.Held) (st : Session) (out : Outcome) → LeaseFresh out
      → Counts (send_slots out) (st.kept + receive_slots out) (receive_outcome read credit st out)
  unfolding receive_outcome
  receive_outcome-Counts read returns credit st (is_failed cause w) h = (refl, refl)
  receive_outcome-Counts read returns credit st (is_blocked kind w) h =
      wait_for-Counts st w kind credit
  receive_outcome-Counts read returns credit st (is_ready txn) h =
      let ((x, r, freed, conn), e) = returns txn.worker.conn txn.lease h in
      let (w, p, run, a, b) = process-slots pools laws read txn e in
      rw (run, e, receive_outcome) (a, omega (arith, b))

  abandon_outcome-Counts :
      (credit : Option l.Held) (st : Session) (out : Outcome)
      → Counts (send_slots out) (st.kept + receive_slots out) (some (abandon_outcome credit st out))
  unfolding abandon_outcome
  abandon_outcome-Counts credit st (is_failed cause w) = (refl, refl)
  abandon_outcome-Counts credit st (is_blocked kind w) = wait_for-Counts st w kind credit
  abandon_outcome-Counts credit st (is_ready txn) =
      let (a, b) = complete_unread-slots pools laws txn in (a, ap (λ n. st.kept + n) b)

  drop_kept-Counts :
      (st : Session) → Counts (send_count st) (receive_count st) (some (drop_kept st))
  unfolding drop_kept
  drop_kept-Counts st = ground (arith, return_slot-available laws st.worker.receive)

  -- What `try_reserve` hands over has the slots that the session has.
  at_start :
      (b : Bool) (st : Session) (r : Option Session)
      → let out = try_reserve b st.worker in
        Counts (send_slots out) (st.kept + receive_slots out) r
        → Counts (send_count st) (receive_count st) r
  at_start b st r h =
      let (a, c) = try_reserve-slots pools laws b st.worker in
      subst (λ n. Counts n (receive_count st) r) a
        (subst (λ m. Counts (send_slots (try_reserve b st.worker)) (st.kept + m) r) c h)

  receive_with-Counts :
      {T : Type 0} (fresh : FreshLaws) (read : Reader T)
      → ((conn : Connection) (lease : Reserve)
          → chunk_slice (freeze lease) ≡ []
          → (r : T × Result Error (Unit {0}) × Release × Connection) × (read conn lease ≡ some r))
      → (b : Bool) (credit : Option l.Held) (st : Session)
      → Counts (send_count st) (receive_count st) (receive_with read b credit st)
  unfolding receive_with
  receive_with-Counts fresh read returns b credit st =
      let out = try_reserve b st.worker in
      at_start b st (receive_with read b credit st) (
        receive_outcome-Counts read returns credit st out
          (try_reserve-LeaseFresh fresh b st.worker))

  abandon-Counts :
      (b : Bool) (credit : Option l.Held) (st : Session)
      → Counts (send_count st) (receive_count st) (some (abandon b credit st))
  unfolding abandon
  abandon-Counts b credit st =
      at_start b st (some (abandon b credit st))
        (abandon_outcome-Counts credit st (try_reserve b st.worker))

-- The contracts of the crates that a connection's life relies on.
pub record LifeLaws ⦃o : Outside⦄ ⦃s : Slots⦄ ⦃l : Lanes⦄ ⦃k : Chunks⦄ : Type 0 where
  pub pools : PoolLaws
  pub slots_of : SlotLaws
  pub fresh : FreshLaws
  pub chunks : ChunkLaws
  pub reserves : ReserveLaws
  pub reading : ReadLaws

module _ ⦃o : Outside⦄ ⦃s : Slots⦄ ⦃l : Lanes⦄ ⦃k : Chunks⦄ ⦃d : Progress⦄ ⦃v : Vectored⦄ where
  step-Counts :
      (laws : LifeLaws) (st : Session) (e : Event)
      → Counts (send_count st) (receive_count st) (step st e)
  unfolding step sent
  step-Counts laws st (sends request) = (
    serve-slots laws.pools
        (record { conn = st.worker.conn; store = st.worker.store; pool = st.worker.pool }) request,
    refl,
  )
  step-Counts laws st (reads b credit bytes) =
      receive_with-Counts laws.pools laws.slots_of laws.fresh
        (λ conn lease. read_batch conn bytes lease)
        (λ conn lease h.
          let (r, e, _, _) = read_batch-delivers laws.reserves laws.reading conn bytes lease h in
          (r, e))
        b credit st
  step-Counts laws st (leases b credit bytes) =
      receive_with-Counts laws.pools laws.slots_of laws.fresh
        (λ conn lease. retain conn bytes lease)
        (λ conn lease h.
          let (r, _, e, _, _, _) =
            retain-delivers laws.chunks laws.reserves laws.reading conn bytes lease h in
          (r, e))
        b credit st
  step-Counts laws st (abandons b credit) = abandon-Counts laws.pools laws.slots_of b credit st
  step-Counts laws st peer_ends = (refl, refl)
  step-Counts laws st drops = drop_kept-Counts laws.pools laws.slots_of st
  step-Counts laws st frees_send = (refl, refl)
  step-Counts laws st (cancels_wait target) = (refl, refl)
  step-Counts laws st (takes_waiter kind) = (refl, refl)

  -- Over any life of a connection, in which sends, reads, failures, waits and the end of the peer
  -- come in any order, no read faults, and the send slots and the receive slots stay as many: those
  -- that are free, in the send buffer or held by plaintext that was handed out.
  pub live-Counts :
      (laws : LifeLaws) (st : Session) (es : List Event)
      → Counts (send_count st) (receive_count st) (live st es)
  unfolding live
  live-Counts laws st [] = (refl, refl)
  live-Counts laws st (e ∷ es) = elim (Option-cases (step st e)) [
    | inl f ↦ absurd (subst (Counts (send_count st) (receive_count st)) f (step-Counts laws st e))
    | inr (st', f) ↦
        let (a, b) = subst (Counts (send_count st) (receive_count st)) f (step-Counts laws st e) in
        rw (f, live)
          (subst (λ n. Counts n (receive_count st) (live st' es)) a
            (subst (λ m. Counts (send_count st') m (live st' es)) b (live-Counts laws st' es)))
  ]
