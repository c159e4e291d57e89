-- ===== src/Tls/Protocol/Loans.antt =====
-- Slots of the send pool over any history of requests.
use tls.Base.{◌≡◌, refl, ◌∙◌, true, List, [], ◌∷◌}
use tls.Outside.{Outside}
use tls.Outside.Laws.{PoolLaws}
use tls.Outside.Progress.{Progress}
use tls.Outside.Vectored.{Vectored}
use tls.Tls.Encrypt.{one}
use tls.Tls.Encrypt.Vectored.{many}
use tls.Tls.Senders.{prepare, prepare_many}
use tls.Tls.Link.{Link}
use tls.Tls.Buffer.{is_tidy}
use tls.Tls.Senders.Slots.{
  link_slots, prepare_with-slots, after_send-slots, settle-slots, flush-slots, prepare_drain-slots,
  close-slots,
}
use tls.Tls.Senders.Tidy.{
  prepare_with-tidy, after_send-tidy, settle-tidy, flush-tidy, prepare_drain-tidy, close-tidy,
}
use tls.Tls.Protocol.{
  Request, prepares, prepares_many, after, settles, flushes, drains, closes, serve, run,
}

module _ ⦃o : Outside⦄ ⦃d : Progress⦄ ⦃v : Vectored⦄ (pools : PoolLaws) where
  pub serve-slots : (l : Link) (r : Request) → link_slots (serve l r) ≡ link_slots l
  unfolding serve prepare prepare_many
  serve-slots l (prepares plain) = prepare_with-slots pools one l plain
  serve-slots l (prepares_many plain) = prepare_with-slots pools many l plain
  serve-slots l (after sent) = after_send-slots pools l sent
  serve-slots l (settles sent draining) = settle-slots pools l sent draining
  serve-slots l flushes = flush-slots pools l
  serve-slots l (drains draining) = prepare_drain-slots pools l draining
  serve-slots l closes = close-slots pools l

  -- Over any history of requests the free slots of the pool, and the one that the connection's
  -- buffer holds, stay as many: none is leaked and none is lent twice.
  pub run-slots : (l : Link) (rs : List Request) → link_slots (run l rs) ≡ link_slots l
  unfolding run
  run-slots l [] = refl
  run-slots l (r ∷ rs) = run-slots (serve l r) rs ∙ serve-slots l r

module _ ⦃o : Outside⦄ ⦃d : Progress⦄ ⦃v : Vectored⦄ where
  serve-tidy : (l : Link) (r : Request) → is_tidy l.store ≡ true → is_tidy (serve l r).store ≡ true
  unfolding serve prepare prepare_many
  serve-tidy l (prepares plain) h = prepare_with-tidy one l plain h
  serve-tidy l (prepares_many plain) h = prepare_with-tidy many l plain h
  serve-tidy l (after sent) h = after_send-tidy l sent
  serve-tidy l (settles sent draining) h = settle-tidy l sent draining
  serve-tidy l flushes h = flush-tidy l h
  serve-tidy l (drains draining) h = prepare_drain-tidy l draining
  serve-tidy l closes h = close-tidy l

  -- A connection never sits on a slot whose buffer is empty: if its buffer is absent or holds
  -- unsent bytes at first, so it is after any history of requests.
  pub run-tidy :
      (l : Link) (rs : List Request) → is_tidy l.store ≡ true → is_tidy (run l rs).store ≡ true
  unfolding run
  run-tidy l [] h = h
  run-tidy l (r ∷ rs) h = run-tidy (serve l r) rs (serve-tidy l r h)
