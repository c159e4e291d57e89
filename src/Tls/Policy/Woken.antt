-- ===== src/Tls/Policy/Woken.antt =====
-- A receive announces the slots that it frees.
use tls.Base.{
  ◌+◌, ◌≡◌, refl, sym, ap, subst, ◌∙◌, inl, inr, Bool-cases, Option-cases, Result-cases, Option,
  none, some, Result, List, [], ◌∷◌, and, true, false, arith,
}
use tls.Outside.{Outside}
use tls.Outside.Laws.{PoolLaws}
use tls.Outside.Slots.{Slots, SlotLaws}
use tls.Error.{Error}
use tls.State.Staged.{Release, released, retained}
use tls.State.Buffers
use tls.Tls.{Connection, SendState, restore, dropped}
use tls.Tls.Link.{Processed}
use tls.Tls.Waiters.{Resource, recv, handshake_egress, Lanes, Queue, wake}
use tls.Tls.Waiters.Waits.{is_one}
use tls.Tls.Waiters.Turns.{TurnLaws}
use tls.Tls.Waiters.Woken.{Woken, wake-Retries, how_many}
use tls.Tls.Policy.{
  Worker, Transaction, flush_loan, complete_loan, release, Reader, returned, finish, process,
}
use tls.Tls.Policy.Lent.{return_slot-available}

module _ ⦃o : Outside⦄ ⦃s : Slots⦄ ⦃l : Lanes⦄ (pools : PoolLaws) (slots : SlotLaws)
    (turns : TurnLaws) where
  open o use {Cursor, Pool, Reserve, available, is_empty}

  -- For each slot that is free now, and was not with `receive` and `pool`, one that waits for such a
  -- slot is retried, and no other: `q` is the queue before.
  abbrev pub Announces : Buffers.Receive → Pool → Queue → Worker → Type 0
  Announces receive pool q w =
      (kinds : List Resource) × (Buffers.available w.receive
        ≡ how_many recv kinds + Buffers.available receive)
      × (available w.pool ≡ how_many handshake_egress kinds + available pool)
      × Woken turns kinds q w.queue

  -- The buffer of the store is lent while there is a loan.
  abbrev pub IsLent : Option Cursor → SendState → Type 0
  IsLent none store = Unit
  IsLent (some out) store = store.buffer ≡ none

  restore_freed :
      (store : SendState) (c : Cursor) (pool : Pool)
      → is_empty c ≡ true
      → let (_, _, pool') = restore store c pool in available pool' ≡ 1 + available pool
  unfolding restore
  restore_freed store c pool e = rw (e, restore) (omega (arith, pools.give_back-available c pool))

  restore_kept :
      (store : SendState) (c : Cursor) (pool : Pool)
      → is_empty c ≡ false
      → store.buffer ≡ none
      → let (_, _, pool') = restore store c pool in pool' ≡ pool
  unfolding restore dropped
  restore_kept store c pool e h = rw (e, restore) (rw h refl)

  loan-Announces :
      (loan : Option Cursor) (w : Worker)
      → IsLent loan w.store
      → Announces w.receive w.pool w.queue (complete_loan loan w)
  unfolding complete_loan restore how_many is_one
  loan-Announces none w h = ([], omega arith, omega arith, refl)
  loan-Announces (some c) w h = elim (Bool-cases (is_empty c)) [
    | inl e ↦
        let more = restore_freed w.store c w.pool e in
        rw (e, complete_loan)
          (
            handshake_egress ∷ [],
            omega arith,
            omega (arith, more),
            (wake w.queue handshake_egress, wake-Retries turns w.queue handshake_egress, refl),
          )
    | inr e ↦
        let same = restore_kept w.store c w.pool e h in
        rw (e, complete_loan) ([], omega arith, omega (arith, ap available same), refl)
  ]

  release-Announces :
      {S : Type 0} (t : Transaction S) (freed : Release) (receive : Buffers.Receive)
      → t.worker.receive ≡ returned freed receive
      → IsLent t.loan t.worker.store
      → Announces receive t.worker.pool t.worker.queue (release t freed)
  unfolding release how_many is_one
  release-Announces t retained receive e h =
      subst (λ r. Announces r t.worker.pool t.worker.queue (release t retained)) e
        (loan-Announces t.loan t.worker h)
  release-Announces t released receive e h =
      let w = t.worker in
      let woken : Worker = record w { queue = wake w.queue recv } in
      let (kinds, got, sent, rest) = loan-Announces t.loan woken h in
      let more = return_slot-available slots receive in
      (
        recv ∷ kinds,
        omega (arith, got, more, ap Buffers.available e),
        omega (arith, sent),
        (woken.queue, wake-Retries turns w.queue recv, rest),
      )

  -- A flush of the handshake keeps the rest of the transaction, and the loan with its buffer.
  flush_loan-IsLent :
      {S : Type 0} (t : Transaction S)
      → IsLent t.loan t.worker.store
      → let (_, t') = flush_loan t in
        IsLent t'.loan t'.worker.store
        × (t'.worker.receive ≡ t.worker.receive)
        × (t'.worker.pool ≡ t.worker.pool)
        × (t'.worker.queue ≡ t.worker.queue)
  unfolding flush_loan
  flush_loan-IsLent t h = elim (Option-cases t.loan) [
    | inl e ↦ rw (e, flush_loan) (h, refl, refl, refl)
    | inr (c, e) ↦
        rw (e, flush_loan) (subst (λ loan. IsLent loan t.worker.store) e h, refl, refl, refl)
  ]

  flush_loan-lease : {S : Type 0} (t : Transaction S) → (flush_loan t).1.lease ≡ t.lease
  unfolding flush_loan
  flush_loan-lease t = ground arith

  finish-Announces :
      {T : Type 0} (x : T) (r : Result Error (Unit {0})) (t : Transaction Release)
      (receive : Buffers.Receive)
      → t.worker.receive ≡ returned t.lease receive
      → IsLent t.loan t.worker.store
      → Announces receive t.worker.pool t.worker.queue (finish x r t).1
  unfolding finish
  finish-Announces x r t receive e h =
      let after = (flush_loan t).1 in
      let (lent, same, pool, queue) = flush_loan-IsLent t h in
      let kept = flush_loan-lease t in
      let announced : Announces receive t.worker.pool t.worker.queue (release after after.lease) =
        subst (λ p. Announces receive p t.worker.queue (release after after.lease)) pool
          (subst (λ q. Announces receive after.worker.pool q (release after after.lease)) queue
            (release-Announces after after.lease receive
              (same ∙ e ∙ ap (λ freed. returned freed receive) (sym kept)) lent)) in
      elim (Result-cases (and r (flush_loan t).0)) [
        | inr (_, f) ↦ rw (f, finish) announced
        | inl (_, f) ↦ elim (Bool-cases after.worker.conn.peer_closed) [
          | inl g ↦ rw (f, g, finish) announced
          | inr g ↦ rw (f, g, finish) announced
        ]
      ]

  -- A receive whose read returns, also when the read or the flush of the handshake fails, retries
  -- for each slot that it frees, that is, each receive or send slot that is free at the end of
  -- `process` and was not before it, the credit that has waited longest for such a slot, if one
  -- waits, and no other. If the send buffer is lent to the receive, the state has no other one.
  pub process-Announces :
      {T : Type 0} (read : Reader T) (t : Transaction Reserve) {x : T} {r : Result Error (Unit {0})}
      {freed : Release} {conn : Connection}
      → read t.worker.conn t.lease ≡ some (x, r, freed, conn)
      → IsLent t.loan t.worker.store
      → (w : Worker) × (p : Processed T) × (process read t ≡ some (p, w))
        × Announces t.worker.receive t.worker.pool t.worker.queue w
  unfolding process
  process-Announces read t {x} {r} {freed} {conn} e h =
      let w : Worker = record t.worker { conn = conn; receive = returned freed t.worker.receive } in
      let t' : Transaction Release = record { worker = w; loan = t.loan; lease = freed } in
      (
        (finish x r t').1,
        (finish x r t').0,
        rw (e, process) refl,
        finish-Announces x r t' t.worker.receive refl h,
      )
