-- ===== src/Tls/Waiters.antt =====
-- src/tls/receive/waiters.rs: the connections that wait for a receive slot or for a send slot. The
-- queue is lanes::Fifo of o3, two queues over the slots of the connections, in which a slot waits
-- at most once. A credit is claimed when its connection is registered, and is then retried or
-- cancelled.
pub mod Credits
pub mod Waits
pub mod Fated
pub mod Turns
pub mod Woken
use tls.Base.{
  ℕ, suc, Bool, true, false, not, Option, none, some, Result, ok, err, List, [], ◌∷◌, ◌++◌, is_nil,
}

-- waiters::Resource.
pub data Resource : Type 0 where
  recv handshake_egress : Resource

-- What the queue takes from the crates: credits with their connection and its slot, and the
-- entry::Error of a slot that waits or does not exist.
pub record Lanes : Type 1 where
  pub Held : Type 0
  pub Target : Type 0
  pub EntryError : Type 0
  pub Fifo : Type 0
  pub id : Held → Target
  pub slot : Target → ℕ
  pub same_id : Target → Target → Bool
  -- `vacant` and `insert`, `pop_front`, whether a lane is empty, `remove_if`, and the rollback of an
  -- insertion, by which the last entry of a lane leaves it again.
  pub insert : Resource → Fifo → ℕ → Held → Result EntryError Fifo
  pub pop_front : Resource → Fifo → Option (Held × Fifo)
  pub is_empty : Resource → Fifo → Bool
  pub remove_if : Fifo → ℕ → (Held → Bool) → Option (Held × Fifo)
  pub rollback : Resource → Fifo → Option (Held × Fifo)

-- What becomes of a credit.
pub data Fate (H : Type 0) : Type 0 where
  claimed retried taken cancelled : H → Fate H

module _ ⦃l : Lanes⦄ where
  open l use {
    Held, Target, EntryError, Fifo, id, slot, same_id, insert, pop_front, is_empty, remove_if,
    rollback,
  }

  -- The queue, and what has become of the credits, latest first.
  pub record Queue : Type 0 where
    pub waiters : Fifo
    pub fates : List (Fate Held)

  -- Queue::register. The credit is claimed only once its slot is found vacant.
  pub register : Queue → Resource → Held → Result EntryError Queue
  register q kind credit = elim (insert kind q.waiters (slot (id credit)) credit) [
    | err cause ↦ err cause
    | ok waiters ↦ ok (record { waiters = waiters; fates = claimed credit ∷ q.fates })
  ]

  -- Queue::take.
  pub take_waiter : Queue → Resource → Option (Held × Queue)
  take_waiter q kind = elim (pop_front kind q.waiters) [
    | none ↦ none
    | some (guard, waiters) ↦ some (guard, record q { waiters = waiters })
  ]

  -- Queue::wake.
  pub wake : Queue → Resource → Queue
  unfolding take_waiter
  wake q kind = elim (take_waiter q kind) [
    | none ↦ q
    | some (guard, q') ↦ record q' { fates = retried guard ∷ q'.fates }
  ]

  -- Queue::has_waiters.
  unfoldable pub has_waiters : Queue → Resource → Bool
  has_waiters q kind = not (is_empty kind q.waiters)

  -- Queue::cancel.
  pub cancel : Queue → Target → Queue
  cancel q target = elim (remove_if q.waiters (slot target) (λ guard. same_id (id guard) target)) [
    | none ↦ q
    | some (guard, waiters) ↦ record { waiters = waiters; fates = cancelled guard ∷ q.fates }
  ]

  -- Dropping a Registration that was not committed.
  pub drop_registration : Queue → Resource → Queue
  drop_registration q kind = elim (rollback kind q.waiters) [
    | none ↦ q
    | some (guard, waiters) ↦ record { waiters = waiters; fates = cancelled guard ∷ q.fates }
  ]

  -- The calls of the queue, in any order. A registration that is committed is left as it is.
  pub data QueueCall : Type 0 where
    registers : Resource → Held → QueueCall
    takes wakes drops : Resource → QueueCall
    cancels : Target → QueueCall

  pub call : Queue → QueueCall → Queue
  call q (registers kind credit) = elim (register q kind credit) [ err _ ↦ q | ok q' ↦ q' ]
  call q (takes kind) = elim (take_waiter q kind) [
    | none ↦ q
    | some (guard, q') ↦ record q' { fates = taken guard ∷ q'.fates }
  ]
  call q (wakes kind) = wake q kind
  call q (drops kind) = drop_registration q kind
  call q (cancels target) = cancel q target

  pub calls : Queue → List QueueCall → Queue
  calls q [] = q
  calls q (c ∷ cs) = calls (call q c) cs
