-- ===== src/Tls/Senders/Slots.antt =====
-- Slots of the send pool: an operation neither leaks one nor lends one twice.
use tls.Base.{ℕ, suc, ◌+◌, ◌≡◌, Bool, Option, none, some, inl, inr, Option-cases, arith}
use tls.Outside.{Outside}
use tls.Outside.Laws.{PoolLaws}
use tls.Tls.{SendState, try_buffer, free_empty, drop_empty, consume_max}
use tls.Tls.Encrypt.{Attempts}
use tls.Tls.Link.{Link, put_back}
use tls.Tls.Senders.{
  prepare_into, prepare_with, after_send, resume, settle, flush, prepare_drain, close,
}

module _ ⦃o : Outside⦄ where
  open o use {Cursor, Pool, available, view}

  abbrev pub held : Option Cursor → ℕ
  held none = 0
  held (some _) = 1

  -- The slots of the pool that are free or held by this send buffer.
  abbrev pub slots : SendState → Pool → ℕ
  slots store pool = held store.buffer + available pool

  abbrev pub link_slots : Link → ℕ
  link_slots l = slots l.store l.pool

module _ ⦃o : Outside⦄ (pools : PoolLaws) where
  open o use {Cursor, Pool, available, view}

  try_buffer-slots :
      (s : SendState) (p : Pool) → slots (try_buffer s p).0 (try_buffer s p).1 ≡ slots s p
  unfolding try_buffer
  try_buffer-slots s p = elim (Option-cases (view p)) [
    | inl e ↦ ground arith
    | inr ((c, q), e) ↦ ground (arith, pools.view-available e)
  ]

  free_empty-slots :
      (s : SendState) (p : Pool) → slots (free_empty s p).1 (free_empty s p).2 ≡ slots s p
  unfolding free_empty
  free_empty-slots s p = grind (arith, pools.give_back-available)

  pub drop_empty-slots :
      (s : SendState) (p : Pool) → slots (drop_empty s p).0 (drop_empty s p).1 ≡ slots s p
  unfolding drop_empty
  drop_empty-slots s p = grind (arith, pools.give_back-available)

  consume_max-slots : (s : SendState) (p : Pool) (k : ℕ) → slots (consume_max s k) p ≡ slots s p
  unfolding consume_max
  consume_max-slots s p k = ground arith

  put_back-slots :
      (l : Link) (conn : _) (c : Cursor) → link_slots (put_back l conn c) ≡ suc (available l.pool)
  unfolding put_back
  put_back-slots l conn c = ground (arith, drop_empty-slots (record { buffer = some c }) l.pool)

  pub flush-slots : (l : Link) → link_slots (flush l).1 ≡ link_slots l
  unfolding flush
  flush-slots l = grind (arith, put_back-slots, try_buffer-slots l.store l.pool)

  pub close-slots : (l : Link) → link_slots (close l).1 ≡ link_slots l
  unfolding close
  close-slots l = grind (arith, put_back-slots, try_buffer-slots l.store l.pool)

  pub after_send-slots : (l : Link) (sent : ℕ) → link_slots (after_send l sent).1 ≡ link_slots l
  unfolding after_send
  after_send-slots l sent = grind (arith, consume_max-slots l.store l.pool sent, free_empty-slots)

  resume-slots : (l : Link) (draining : Bool) → link_slots (resume l draining).2 ≡ link_slots l
  unfolding resume
  resume-slots l draining = grind (arith, try_buffer-slots l.store l.pool)

  pub settle-slots :
      (l : Link) (sent : ℕ) (draining : Bool) → link_slots (settle l sent draining).2 ≡ link_slots l
  unfolding settle
  settle-slots l sent draining =
      grind (arith, consume_max-slots l.store l.pool sent, free_empty-slots, resume-slots)

  pub prepare_drain-slots :
      (l : Link) (draining : Bool) → link_slots (prepare_drain l draining).2 ≡ link_slots l
  unfolding prepare_drain
  prepare_drain-slots l draining = grind (arith, drop_empty-slots, resume-slots)

  module _ (a : Attempts) where
    open a use {Left}

    prepare_into-slots :
        (l : Link) (egress : Cursor) (plain : Left)
        → link_slots (prepare_into a l egress plain).1 ≡ suc (available l.pool)
    unfolding prepare_into
    prepare_into-slots l egress plain = grind (arith, put_back-slots)

    pub prepare_with-slots :
        (l : Link) (plain : Left) → link_slots (prepare_with a l plain).1 ≡ link_slots l
    unfolding prepare_with
    prepare_with-slots l plain = grind (arith, prepare_into-slots, try_buffer-slots l.store l.pool)
