-- ===== src/Tls/Session/Handing.antt =====
-- What the events in the life of a connection hand out, and what they make of the connection.
use tls.Base.{ℕ, ◌≡◌, refl, sym, ap, subst, ◌∙◌, Bool, Option, List, [], ◌++◌, append-nil, arith}
use tls.Outside.{Outside}
use tls.Outside.Laws.{ReadLaws}
use tls.Outside.Progress.{Progress}
use tls.Outside.Vectored.{Vectored}
use tls.Outside.Slots.{Slots}
use tls.Outside.Chunks.{Chunks}
use tls.Tls.{Connection, peer_eof}
use tls.Tls.Link.{Link}
use tls.Tls.Encrypt.Silent.{SendLaws, one-Silent}
use tls.Tls.Encrypt.Vectored.Silent.{many-Silent}
use tls.Tls.Encrypt.{one}
use tls.Tls.Encrypt.Vectored.{many}
use tls.Tls.Senders.{prepare, prepare_many}
use tls.Tls.Senders.Silent.{
  link_delivered, after_send-delivered, settle-delivered, flush-delivered, prepare_drain-delivered,
  close-delivered, prepare_with-delivered,
}
use tls.Tls.Protocol.{
  Request, prepares, prepares_many, after, settles, flushes, drains, closes, serve,
}
use tls.Tls.Waiters.{Lanes}
use tls.Tls.Policy.{try_reserve}
use tls.Tls.Policy.Fresh.{FreshLaws, try_reserve-LeaseFresh}
use tls.Tls.Policy.Silent.{try_reserve-native}
use tls.Tls.Session.{
  Session, Event, receive_outcome, sends, reads, leases, abandons, peer_ends, drops, frees_send,
  cancels_wait, takes_waiter, receive_with, abandon, sent, end_of_peer, step,
}
use tls.Tls.Receive.Ended.{stream_bytes}
use tls.Tls.Session.Reads.{outcome_bytes, Returned, Accounts, Hands, receive_outcome-Hands}
use tls.Tls.Session.Rule.{conn_of, link_of, drop_kept-conn, abandon_outcome-Kept}
use tls.Tls.Receive.{read_batch, retain}
use tls.Tls.Receive.Delivery.{batch_bytes}
use tls.Tls.Policy.{Reader}
use tls.Tls.Senders.Silent.{delivers-SendKeeps}

module _ ⦃o : Outside⦄ ⦃s : Slots⦄ ⦃l : Lanes⦄ ⦃k : Chunks⦄ ⦃d : Progress⦄ ⦃v : Vectored⦄ where
  -- What an event hands out, and what a life does.
  abbrev pub event_bytes : Session → Event → List ℕ
  event_bytes st (reads b credit bytes) =
      outcome_bytes batch_bytes (λ conn lease. read_batch conn bytes lease)
        (try_reserve b st.worker)
  event_bytes st (leases b credit bytes) =
      outcome_bytes stream_bytes (λ conn lease. retain conn bytes lease) (try_reserve b st.worker)
  event_bytes st _ = []

module _ ⦃o : Outside⦄ ⦃s : Slots⦄ ⦃l : Lanes⦄ ⦃k : Chunks⦄ ⦃d : Progress⦄ ⦃v : Vectored⦄
    (reading : ReadLaws) (sending : SendLaws reading) where
  open reading use {delivered}

  serve-delivered :
      (l : Link) (r : Request)
      → link_delivered reading sending (serve l r) ≡ link_delivered reading sending l
  unfolding serve prepare prepare_many
  serve-delivered l (prepares plain) =
      prepare_with-delivered reading sending one (one-Silent reading) l plain
  serve-delivered l (prepares_many plain) =
      prepare_with-delivered reading sending many (many-Silent reading sending) l plain
  serve-delivered l (after sent) = after_send-delivered reading sending l sent
  serve-delivered l (settles sent draining) = settle-delivered reading sending l sent draining
  serve-delivered l flushes = flush-delivered reading sending l
  serve-delivered l (drains draining) = prepare_drain-delivered reading sending l draining
  serve-delivered l closes = close-delivered reading sending l

  peer_eof-delivered :
      (conn : Connection) → delivered (end_of_peer conn).1.native ≡ delivered conn.native
  unfolding end_of_peer peer_eof
  peer_eof-delivered conn = ground (
    arith,
    reading.read_tls-delivered conn.native [],
    reading.fill_buf-delivered (o.read_tls conn.native []).1,
  )

  -- An event adds what it hands out, if its read does.
  abbrev pub EventHands : (List ℕ → Connection → Type 0) → Event → Type 0
  EventHands H (reads b credit bytes) =
      Hands reading H batch_bytes (λ conn lease. read_batch conn bytes lease)
  EventHands H (leases b credit bytes) =
      Hands reading H stream_bytes (λ conn lease. retain conn bytes lease)
  EventHands H _ = Unit

  module _ (H : List ℕ → Connection → Type 0) (accounts : Accounts reading H)
      (fresh : FreshLaws) where
    -- An event that hands out nothing leaves what was delivered.
    unchanged :
        (conn conn' : Connection)
        → delivered conn'.native ≡ delivered conn.native
        → H (delivered conn.native ++ []) conn'
    unchanged conn conn' e = accounts.exact _ conn' (e ∙ sym (append-nil _))

    received :
        {T : Type 0} (shown : T → List ℕ) (read : Reader T)
        → Hands reading H shown read
        → (b : Bool) (credit : Option l.Held) (st : Session)
        → Returned
            (λ st'.
              H
                (delivered (conn_of st).native
                  ++ outcome_bytes shown read (try_reserve b st.worker))
                (conn_of st'))
            (receive_with read b credit st)
    unfolding receive_with
    received shown read hands b credit st =
        subst
          (λ n.
            Returned
              (λ st'.
                H (delivered n ++ outcome_bytes shown read (try_reserve b st.worker)) (conn_of st'))
              (receive_outcome read credit st (try_reserve b st.worker)))
          (try_reserve-native b st.worker)
          (receive_outcome-Hands reading H accounts shown read hands credit st
            (try_reserve b st.worker) (try_reserve-LeaseFresh fresh b st.worker))

    pub step-Hands :
        (st : Session) (e : Event)
        → EventHands H e
        → Returned
            (λ st'. H (delivered (conn_of st).native ++ event_bytes st e) (conn_of st'))
            (step st e)
    unfolding step sent abandon
    step-Hands st (reads b credit bytes) h =
        received batch_bytes (λ conn lease. read_batch conn bytes lease) h b credit st
    step-Hands st (leases b credit bytes) h =
        received stream_bytes (λ conn lease. retain conn bytes lease) h b credit st
    step-Hands st (sends request) h =
        unchanged (conn_of st) _ (serve-delivered (link_of st.worker) request)
    step-Hands st (abandons b credit) h = unchanged (conn_of st) _ (
        abandon_outcome-Kept (λ conn. delivered conn.native ≡ delivered (conn_of st).native)
          (delivers-SendKeeps reading sending _) credit st (try_reserve b st.worker)
          (ap delivered (try_reserve-native b st.worker)))
    step-Hands st peer_ends h = unchanged (conn_of st) _ (peer_eof-delivered (conn_of st))
    step-Hands st drops h =
        unchanged (conn_of st) _ (ap (λ conn. delivered conn.native) (drop_kept-conn st))
    step-Hands st frees_send h = unchanged (conn_of st) _ refl
    step-Hands st (cancels_wait target) h = unchanged (conn_of st) _ refl
    step-Hands st (takes_waiter kind) h = unchanged (conn_of st) _ refl
