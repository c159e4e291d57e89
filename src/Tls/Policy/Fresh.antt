-- ===== src/Tls/Policy/Fresh.antt =====
-- The receive slot that a transaction starts with is empty.
use tls.Base.{◌≡◌, inl, inr, Option-cases, Result-cases, Bool-cases, Bool, ◌&&◌, none, some, ok, []}
use tls.Outside.{Outside}
use tls.Outside.Slots.{Slots}
use tls.State.Buffers
use tls.Tls.{reserve}
use tls.Tls.Waiters.{Lanes}
use tls.Tls.Policy.{Worker, Outcome, is_ready, is_blocked, is_failed, with_slot, try_reserve}

module _ ⦃o : Outside⦄ ⦃s : Slots⦄ ⦃l : Lanes⦄ where
  open o use {Reserve, chunk_slice, freeze, is_handshaking}

  -- A receive slot is lent empty.
  pub record FreshLaws : Type 0 where
    pub try_reserve-empty :
        (r r' : Buffers.Receive) (lease : Reserve)
        → Buffers.try_reserve r ≡ ok (some (lease, r'))
        → chunk_slice (freeze lease) ≡ []

  abbrev pub LeaseFresh : Outcome → Type 0
  LeaseFresh (is_ready txn) = chunk_slice (freeze txn.lease) ≡ []
  LeaseFresh (is_blocked kind w) = Unit
  LeaseFresh (is_failed cause w) = Unit

  with_slot-LeaseFresh :
      (b : Bool) (w : Worker) (lease : Reserve)
      → chunk_slice (freeze lease) ≡ []
      → LeaseFresh (with_slot b w lease)
  unfolding with_slot
  with_slot-LeaseFresh b w lease e = elim (Bool-cases (is_handshaking w.conn.native && b)) [
    | inr f ↦ rw (f, with_slot) e
    | inl f ↦ elim (Option-cases (reserve w.store w.pool)) [
      | inl g ↦ rw (f, g, with_slot) tt
      | inr ((c, store', pool'), g) ↦ rw (f, g, with_slot) e
    ]
  ]

  pub try_reserve-LeaseFresh :
      (fresh : FreshLaws) (b : Bool) (w : Worker) → LeaseFresh (try_reserve b w)
  unfolding try_reserve
  try_reserve-LeaseFresh fresh b w = elim (Result-cases (Buffers.try_reserve w.receive)) [
    | inr (c, f) ↦ rw (f, try_reserve) tt
    | inl (none, f) ↦ rw (f, try_reserve) tt
    | inl (some (lease, r'), f) ↦
        rw (f, try_reserve)
          (with_slot-LeaseFresh b (record w { receive = r' }) lease
            (fresh.try_reserve-empty w.receive r' lease f))
  ]
