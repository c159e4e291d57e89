-- ===== src/Tls/Policy/Lent.antt =====
-- The slots that a receive takes and gives back.
use tls.Base.{
  ℕ, suc, ◌+◌, ◌≡◌, refl, sym, ◌∙◌, inl, inr, Option-cases, Result-cases, Bool-cases, Bool, ◌&&◌,
  Option, none, some, Result, ok, and, arith,
}
use tls.Outside.{Outside}
use tls.Outside.Laws.{PoolLaws}
use tls.Outside.Slots.{Slots, SlotLaws}
use tls.Error.{Error}
use tls.State.Staged.{Release, released, retained}
use tls.State.Buffers
use tls.Tls.{Connection, SendState, reserve, restore, dropped}
use tls.Tls.Link.{Processed}
use tls.Tls.Senders.Slots.{held, slots}
use tls.Tls.Waiters.{Lanes}
use tls.Tls.Policy.{
  Worker, Transaction, Outcome, is_ready, is_blocked, is_failed, with_slot, try_reserve, flush_loan,
  complete_loan, release, complete_unread, Reader, returned, finish, process,
}

module _ ⦃o : Outside⦄ ⦃s : Slots⦄ where
  open o use {Cursor, Pool, Reserve}

  pub try_reserve-available :
      (laws : SlotLaws) (r : Buffers.Receive) {lease : Reserve} {r' : Buffers.Receive}
      → Buffers.try_reserve r ≡ ok (some (lease, r'))
      → Buffers.available r ≡ suc (Buffers.available r')
  unfolding Buffers.try_reserve Buffers.available
  try_reserve-available laws (Buffers.is_fixed p) e = elim (Option-cases (s.borrow p)) [
    | inl f ↦ ground arith
    | inr ((x, q), f) ↦ ground (arith, laws.borrow-available f)
  ]
  try_reserve-available laws (Buffers.is_growing p) e = elim (Result-cases (s.try_borrow p)) [
    | inr (c, f) ↦ ground arith
    | inl (none, f) ↦ ground arith
    | inl (some (x, q), f) ↦ ground (arith, laws.try_borrow-available f)
  ]

  pub return_slot-available :
      (laws : SlotLaws) (r : Buffers.Receive)
      → Buffers.available (Buffers.return_slot r) ≡ suc (Buffers.available r)
  unfolding Buffers.return_slot Buffers.available
  return_slot-available laws (Buffers.is_fixed p) = laws.fixed_return-available p
  return_slot-available laws (Buffers.is_growing p) = laws.growing_return-available p

module _ ⦃o : Outside⦄ (pools : PoolLaws) where
  open o use {Cursor, Pool}

  pub reserve-slots :
      (store : SendState) (pool : Pool) {c : Cursor} {store' : SendState} {pool' : Pool}
      → reserve store pool ≡ some (c, store', pool')
      → slots store pool ≡ suc (slots store' pool')
  unfolding reserve
  reserve-slots store pool e = elim (Option-cases store.buffer) [
    | inr (c, f) ↦ ground arith
    | inl f ↦ elim (Option-cases (o.view pool)) [
      | inl g ↦ ground arith
      | inr ((c, q), g) ↦ ground (arith, pools.view-available g)
    ]
  ]

  pub restore-slots :
      (store : SendState) (c : Cursor) (pool : Pool)
      → let (_, store', pool') = restore store c pool in slots store' pool' ≡ suc (slots store pool)
  unfolding restore dropped
  restore-slots store c pool = elim (Option-cases store.buffer) [
    | inl f ↦ ground (arith, pools.give_back-available c pool)
    | inr (d, f) ↦
        ground (arith, pools.give_back-available c pool, pools.give_back-available d pool)
  ]

module _ ⦃o : Outside⦄ ⦃s : Slots⦄ ⦃l : Lanes⦄ where
  open o use {Reserve}

  -- Slots of the send pool: free, in the send buffer, or lent to the transaction. Slots of the
  -- receive pool: free, or taken by the transaction.
  abbrev pub send_slots : Outcome → ℕ
  send_slots (is_ready t) = held t.loan + slots t.worker.store t.worker.pool
  send_slots (is_blocked _ w) = slots w.store w.pool
  send_slots (is_failed _ w) = slots w.store w.pool

  abbrev pub receive_slots : Outcome → ℕ
  receive_slots (is_ready t) = suc (Buffers.available t.worker.receive)
  receive_slots (is_blocked _ w) = Buffers.available w.receive
  receive_slots (is_failed _ w) = Buffers.available w.receive

-- The slots that a finished receive has kept: one if its plaintext is in the receive buffer.
abbrev pub kept_slots : Release → ℕ
kept_slots released = 0
kept_slots retained = 1

module _ ⦃o : Outside⦄ ⦃s : Slots⦄ ⦃l : Lanes⦄ (pools : PoolLaws) (laws : SlotLaws) where
  open o use {Cursor, Reserve, is_handshaking}

  with_slot-slots :
      (b : Bool) (w : Worker) (lease : Reserve)
      → (send_slots (with_slot b w lease) ≡ slots w.store w.pool)
        × (receive_slots (with_slot b w lease) ≡ suc (Buffers.available w.receive))
  unfolding with_slot
  with_slot-slots b w lease = elim (Bool-cases (is_handshaking w.conn.native && b)) [
    | inr f ↦ rw (f, with_slot) (omega arith, refl)
    | inl f ↦ elim (Option-cases (reserve w.store w.pool)) [
      | inl g ↦ rw (f, g, with_slot) (refl, return_slot-available laws w.receive)
      | inr ((c, store', pool'), g) ↦
          rw (f, g, with_slot) (omega (arith, reserve-slots pools w.store w.pool g), refl)
    ]
  ]

  -- Admitting a receive, whatever its outcome, keeps the count of the slots of both pools: those
  -- that are free, in the send buffer or taken by the transaction.
  pub try_reserve-slots :
      (b : Bool) (w : Worker)
      → (send_slots (try_reserve b w) ≡ slots w.store w.pool)
        × (receive_slots (try_reserve b w) ≡ Buffers.available w.receive)
  unfolding try_reserve
  try_reserve-slots b w = elim (Result-cases (Buffers.try_reserve w.receive)) [
    | inr (c, f) ↦ rw (f, try_reserve) (refl, refl)
    | inl (none, f) ↦ rw (f, try_reserve) (refl, refl)
    | inl (some (lease, r'), f) ↦
        let (a, c) = with_slot-slots b (record w { receive = r' }) lease in
        rw (f, try_reserve) (a, c ∙ sym (try_reserve-available laws w.receive f))
  ]

  complete_loan-slots :
      (loan : Option Cursor) (w : Worker)
      → let w' = complete_loan loan w in
        (slots w'.store w'.pool ≡ held loan + slots w.store w.pool) × (w'.receive ≡ w.receive)
  unfolding complete_loan
  complete_loan-slots none w = (omega arith, refl)
  complete_loan-slots (some c) w = ground (arith, restore-slots pools w.store c w.pool)

  release-slots :
      {S : Type 0} (t : Transaction S) (freed : Release)
      → let w' = release t freed in
        (slots w'.store w'.pool ≡ held t.loan + slots t.worker.store t.worker.pool)
        × (w'.receive ≡ t.worker.receive)
  unfolding release
  release-slots t released = complete_loan-slots t.loan _
  release-slots t retained = complete_loan-slots t.loan _

  -- A transaction that is completed without a read gives back all that it took.
  pub complete_unread-slots :
      (t : Transaction Reserve)
      → let w' = complete_unread t in
        (slots w'.store w'.pool ≡ send_slots (is_ready t))
        × (Buffers.available w'.receive ≡ receive_slots (is_ready t))
  unfolding complete_unread
  complete_unread-slots t =
      let t' : Transaction Reserve = record t {
        worker = record t.worker { receive = Buffers.return_slot t.worker.receive };
      } in
      let (a, b) = release-slots t' released in
      (a, rw b (return_slot-available laws t.worker.receive))

  flush_loan-slots :
      {S : Type 0} (t : Transaction S)
      → let (_, t') = flush_loan t in
        (held t'.loan ≡ held t.loan)
        × (slots t'.worker.store t'.worker.pool ≡ slots t.worker.store t.worker.pool)
        × (t'.worker.receive ≡ t.worker.receive)
  unfolding flush_loan
  flush_loan-slots t = ground arith

  finish-slots :
      {T : Type 0} (x : T) (r : Result Error (Unit {0})) (t : Transaction Release)
      → let (_, w') = finish x r t in
        (slots w'.store w'.pool ≡ held t.loan + slots t.worker.store t.worker.pool)
        × (w'.receive ≡ t.worker.receive)
  unfolding finish
  finish-slots x r t =
      let (a, b, c) = flush_loan-slots t in
      let (d, e) = release-slots (flush_loan t).1 (flush_loan t).1.lease in
      elim (Result-cases (and r (flush_loan t).0)) [
        | inr (_, f) ↦ rw (f, finish) (omega arith, e ∙ c)
        | inl (_, f) ↦ elim (Bool-cases (flush_loan t).1.worker.conn.peer_closed) [
          | inl g ↦ rw (f, g, finish) (omega arith, e ∙ c)
          | inr g ↦ rw (f, g, finish) (omega arith, e ∙ c)
        ]
      ]

  returned-slots :
      (freed : Release) (r : Buffers.Receive)
      → kept_slots freed + Buffers.available (returned freed r) ≡ suc (Buffers.available r)
  returned-slots released r = omega (arith, return_slot-available laws r)
  returned-slots retained r = omega arith

  -- A receive whose read returns gives its send buffer back to the connection or to the pool, and
  -- its receive slot to the pool unless the read has kept it, also when the read or the flush of
  -- the handshake fails.
  pub process-slots :
      {T : Type 0} (read : Reader T) (t : Transaction Reserve) {x : T} {r : Result Error (Unit {0})}
      {freed : Release} {conn : Connection}
      → read t.worker.conn t.lease ≡ some (x, r, freed, conn)
      → (w : Worker) × (p : Processed T) × (process read t ≡ some (p, w))
        × (slots w.store w.pool ≡ send_slots (is_ready t))
        × (kept_slots freed + Buffers.available w.receive ≡ receive_slots (is_ready t))
  unfolding process
  process-slots read t {x} {r} {freed} {conn} e =
      let w : Worker = record t.worker { conn = conn; receive = returned freed t.worker.receive } in
      let t' : Transaction Release = record { worker = w; loan = t.loan; lease = freed } in
      let (a, b) = finish-slots x r t' in
      (
        (finish x r t').1,
        (finish x r t').0,
        rw (e, process) refl,
        a,
        rw b (returned-slots freed t.worker.receive),
      )
