-- ===== src/Tls/Session/Shut.antt =====
-- A connection that has failed, or that this side has closed, sends no more plaintext.
use tls.Base.{ℕ, ◌-◌, ◌≡◌, refl, ◌∙◌, true, some, List, [], ◌++◌, append-nil, length, arith}
use tls.Outside.{Outside}
use tls.Outside.Laws.{PlainLaws, QuietLaws}
use tls.Outside.Progress.{Progress, PlanLaws}
use tls.Outside.Vectored.{Vectored, VectoredLaws}
use tls.Outside.Slots.{Slots}
use tls.Outside.Chunks.{Chunks}
use tls.Tls.Encrypt.{one}
use tls.Tls.Encrypt.Vectored.{many}
use tls.Tls.Encrypt.Plaintext.{is_shut}
use tls.Tls.Senders.{prepare, prepare_many}
use tls.Tls.Senders.Accepted.{consumed}
use tls.Tls.Senders.Plaintext.{prepare_with-shut}
use tls.Tls.Protocol.{prepares, prepares_many, after, settles, flushes, drains, closes}
use tls.Tls.Waiters.{Lanes}
use tls.Tls.Session.{
  Session, Event, sends, reads, leases, abandons, peer_ends, drops, frees_send, cancels_wait,
  takes_waiter, step, live,
}
use tls.Tls.Session.Accepted.{event_sends, live-Sent}
use tls.Tls.Session.Counts.{LifeLaws}
use tls.Tls.Session.Latched.{Latched-refl, step-Latched}
use tls.Tls.Session.Life.{life_sum, live-sums, after_life}
use tls.Tls.Session.Rule.{After, After-both, conn_of, link_of}

consumed_none : (xs : List ℕ) → consumed xs xs ≡ []
consumed_none xs = let e : length xs - length xs ≡ 0 = omega arith in rw e refl

module _ ⦃o : Outside⦄ ⦃s : Slots⦄ ⦃l : Lanes⦄ ⦃k : Chunks⦄ ⦃d : Progress⦄ ⦃v : Vectored⦄ where
  event_sends-shut :
      (st : Session) (e : Event) → is_shut (conn_of st) ≡ true → event_sends st e ≡ []
  unfolding prepare prepare_many
  event_sends-shut st (sends (prepares plain)) h =
      rw (prepare_with-shut one (link_of st.worker) plain h) (consumed_none (d.rest plain))
  event_sends-shut st (sends (prepares_many plain)) h =
      rw (prepare_with-shut many (link_of st.worker) plain h) (consumed_none (v.many_rest plain))
  event_sends-shut st (sends (after n)) h = refl
  event_sends-shut st (sends (settles n draining)) h = refl
  event_sends-shut st (sends flushes) h = refl
  event_sends-shut st (sends (drains draining)) h = refl
  event_sends-shut st (sends closes) h = refl
  event_sends-shut st (reads b credit bytes) h = refl
  event_sends-shut st (leases b credit bytes) h = refl
  event_sends-shut st (abandons b credit) h = refl
  event_sends-shut st peer_ends h = refl
  event_sends-shut st drops h = refl
  event_sends-shut st frees_send h = refl
  event_sends-shut st (cancels_wait target) h = refl
  event_sends-shut st (takes_waiter kind) h = refl

  abbrev Mute : List ℕ → Session → Type 0
  Mute sent st = (is_shut (conn_of st) ≡ true) × (sent ≡ [])

  step-Mute :
      (sent : List ℕ) (st : Session) (e : Event)
      → Mute sent st
      → After (Mute (sent ++ event_sends st e)) (step st e)
  step-Mute sent st e (shut, none_yet) =
      let still : sent ++ event_sends st e ≡ [] = rw (none_yet, event_sends-shut st e shut) refl in
      let flags = step-Latched (conn_of st) st e (Latched-refl (conn_of st)) in
      After-both _ _ _ (step st e) (λ st' f _. (ground (arith, shut, f.0, f.1), still)) flags flags

  -- Once a connection has failed, or this side has closed it, it stays so over the rest of its life,
  -- whatever comes: it returns, consumes nothing of the plans of its sends, and rustls accepts no
  -- more plaintext.
  pub live-Shut :
      (laws : LifeLaws) (plains : PlainLaws) (quiet : QuietLaws plains) (plans : PlanLaws)
      (vectors : VectoredLaws) (st : Session) (es : List Event)
      → is_shut (conn_of st) ≡ true
      → (st' : Session) × (live st es ≡ some st')
        × (is_shut (conn_of st') ≡ true)
        × (plains.accepted (conn_of st').native ≡ plains.accepted (conn_of st).native)
        × (life_sum event_sends st es ≡ [])
  live-Shut laws plains quiet plans vectors st es h =
      let (st', e, all) = live-Sent plains quiet laws plans vectors st es in
      let (shut, nothing) =
        after_life (Mute (life_sum event_sends st es)) e
          (live-sums event_sends Mute step-Mute [] st es (h, refl)) in
      (st', e, shut, all ∙ rw nothing (append-nil _), nothing)
