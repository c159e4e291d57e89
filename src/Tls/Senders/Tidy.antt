-- ===== src/Tls/Senders/Tidy.antt =====
-- The operations of the send path give up a buffer as soon as it is empty.
use tls.Base.{ℕ, ◌≡◌, Bool, true, none, arith}
use tls.Outside.{Outside}
use tls.Tls.Encrypt.{Attempts}
use tls.Tls.Link.{Link}
use tls.Tls.Buffer.{is_tidy, free_empty-tidy, drop_empty-tidy, put_back-tidy}
use tls.Tls.Senders.{
  is_pending, prepare_into, prepare_with, after_send, resume, settle, flush, prepare_drain, close,
}

module _ ⦃o : Outside⦄ where
  pub flush-tidy : (l : Link) → is_tidy l.store ≡ true → is_tidy (flush l).1.store ≡ true
  unfolding flush
  flush-tidy l h = grind (arith, put_back-tidy)

  pub close-tidy : (l : Link) → is_tidy (close l).1.store ≡ true
  unfolding close
  close-tidy l = grind (arith, put_back-tidy)

  pub after_send-tidy : (l : Link) (sent : ℕ) → is_tidy (after_send l sent).1.store ≡ true
  unfolding after_send
  after_send-tidy l sent = grind (arith, free_empty-tidy)

  -- `resume` waits only when it has no buffer.
  resume-waits :
      (l : Link) (draining : Bool)
      → (resume l draining).0 ≡ is_pending
      → (resume l draining).2.store.buffer ≡ none
  unfolding resume
  resume-waits l draining h = ground arith

  pub settle-tidy :
      (l : Link) (sent : ℕ) (draining : Bool) → is_tidy (settle l sent draining).2.store ≡ true
  unfolding settle
  settle-tidy l sent draining = grind (arith, resume-waits, free_empty-tidy)

  pub prepare_drain-tidy :
      (l : Link) (draining : Bool) → is_tidy (prepare_drain l draining).2.store ≡ true
  unfolding prepare_drain
  prepare_drain-tidy l draining = grind (arith, resume-waits, drop_empty-tidy)

  module _ (a : Attempts) where
    prepare_into-tidy :
        (l : Link) (c : o.Cursor) (plain : a.Left)
        → is_tidy (prepare_into a l c plain).1.store ≡ true
    unfolding prepare_into
    prepare_into-tidy l c plain = grind (arith, put_back-tidy)

    pub prepare_with-tidy :
        (l : Link) (plain : a.Left)
        → is_tidy l.store ≡ true
        → is_tidy (prepare_with a l plain).1.store ≡ true
    unfolding prepare_with
    prepare_with-tidy l plain h = grind (arith, prepare_into-tidy)
