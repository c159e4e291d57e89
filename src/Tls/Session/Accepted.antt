-- ===== src/Tls/Session/Accepted.antt =====
-- The plaintext that a connection sends over its life.
use tls.Base.{
  ℕ, ◌≡◌, refl, sym, ap, ◌∙◌, inl, inr, Result-cases, some, List, [], ◌++◌, take, append-nil,
  take-nil, subst,
}
use tls.Outside.{Outside}
use tls.Outside.Laws.{PlainLaws, QuietLaws}
use tls.Outside.Progress.{Progress, PlanLaws}
use tls.Outside.Vectored.{Vectored, VectoredLaws}
use tls.Outside.Slots.{Slots}
use tls.Outside.Chunks.{Chunks}
use tls.State.Input.Rule.{ReadKeeps}
use tls.Tls.Encrypt.{one}
use tls.Tls.Encrypt.Vectored.{many}
use tls.Tls.Encrypt.Accepts.{one-Conserves}
use tls.Tls.Encrypt.Vectored.Gathered.{many-Conserves}
use tls.Tls.Senders.{prepare, prepare_many}
use tls.Tls.Senders.Accepted.{consumed, accepts-SendKeeps, prepare_with-accepts}
use tls.Tls.Encrypt.Grows.{one-Grows}
use tls.Tls.Encrypt.Vectored.Grows.{many-Grows}
use tls.Tls.Protocol.{serve, prepares, prepares_many, after, settles, flushes, drains, closes}
use tls.Tls.Waiters.{Lanes}
use tls.Tls.Session.{
  Session, Event, sends, reads, leases, abandons, peer_ends, drops, frees_send, cancels_wait,
  takes_waiter, step, live, sent,
}
use tls.Tls.Session.Counts.{LifeLaws}
use tls.Tls.Session.Life.{life_sum, live-sums, after_life, live_returns}
use tls.Tls.Session.Rule.{After, conn_of, link_of, Encrypts, reading_of, step-Kept}

module _ ⦃o : Outside⦄ ⦃s : Slots⦄ ⦃l : Lanes⦄ ⦃k : Chunks⦄ ⦃d : Progress⦄ ⦃v : Vectored⦄ where
  -- The plaintext that an event consumes of the plan of a send.
  abbrev pub event_sends : Session → Event → List ℕ
  event_sends st (sends (prepares plain)) =
      consumed (d.rest plain) (d.rest (prepare (link_of st.worker) plain).2)
  event_sends st (sends (prepares_many plain)) =
      consumed (v.many_rest plain) (v.many_rest (prepare_many (link_of st.worker) plain).2)
  event_sends st _ = []

module _ ⦃o : Outside⦄ (plains : PlainLaws) (quiet : QuietLaws plains) where
  open plains use {accepted}

  -- The probe of a read writes nothing.
  probe-accepted : (n : o.Native) → accepted (o.write n []).1 ≡ accepted n
  probe-accepted n = elim (Result-cases (o.write n []).0) [
    | inr (c, e) ↦ plains.write-err n [] e
    | inl (k, e) ↦
        let none_taken : take k [] ≡ [] = take-nil k in
        (plains.write-ok n [] e).1 ∙ ap (◌++◌ (accepted n)) none_taken ∙ append-nil _
  ]

  accepts-ReadKeeps : (bytes : List ℕ) → ReadKeeps (λ conn. accepted conn.native ≡ bytes)
  accepts-ReadKeeps bytes = record {
    on_read_tls = λ conn bs h. quiet.read_tls-accepted conn.native bs ∙ h;
    on_process = λ conn h. quiet.process-accepted conn.native ∙ h;
    on_probe = λ conn h. probe-accepted conn.native ∙ h;
    on_fill_buf = λ conn h. quiet.fill_buf-accepted conn.native ∙ h;
    on_consume = λ conn k h. quiet.consume-accepted conn.native k ∙ h;
    on_peer_closed = λ conn closed h. h;
    on_fail = λ conn h. h;
  }

  module _ ⦃s : Slots⦄ ⦃l : Lanes⦄ ⦃k : Chunks⦄ ⦃d : Progress⦄ ⦃v : Vectored⦄ where
    -- So much plaintext has been accepted.
    abbrev Sent : List ℕ → Session → Type 0
    Sent all st = accepted (conn_of st).native ≡ all

    -- An event that encrypts nothing.
    quietly :
        (st : Session) (e : Event)
        → Encrypts (λ conn. accepted conn.native ≡ accepted (conn_of st).native) st e
        → After (Sent (accepted (conn_of st).native ++ [])) (step st e)
    quietly st e h =
        subst (λ xs. After (Sent xs) (step st e)) (sym (append-nil _))
          (step-Kept _ (reading_of _ (accepts-ReadKeeps _)) (accepts-SendKeeps plains quiet _) st e
            h refl)

    step-Sent :
        (plans : PlanLaws) (vectors : VectoredLaws) (st : Session) (e : Event)
        → After (Sent (accepted (conn_of st).native ++ event_sends st e)) (step st e)
    unfolding step sent serve prepare prepare_many
    step-Sent plans vectors st (sends (prepares plain)) =
        prepare_with-accepts plains quiet one (one-Grows plains) (one-Conserves plains plans)
          (link_of st.worker) plain
    step-Sent plans vectors st (sends (prepares_many plain)) =
        prepare_with-accepts plains quiet many (many-Grows plains) (many-Conserves plains vectors)
          (link_of st.worker) plain
    step-Sent plans vectors st (sends (after n)) = quietly st (sends (after n)) tt
    step-Sent plans vectors st (sends (settles n draining)) =
        quietly st (sends (settles n draining)) tt
    step-Sent plans vectors st (sends flushes) = quietly st (sends flushes) tt
    step-Sent plans vectors st (sends (drains draining)) = quietly st (sends (drains draining)) tt
    step-Sent plans vectors st (sends closes) = quietly st (sends closes) tt
    step-Sent plans vectors st (reads b credit bytes) = quietly st (reads b credit bytes) tt
    step-Sent plans vectors st (leases b credit bytes) = quietly st (leases b credit bytes) tt
    step-Sent plans vectors st (abandons b credit) = quietly st (abandons b credit) tt
    step-Sent plans vectors st peer_ends = quietly st peer_ends tt
    step-Sent plans vectors st drops = quietly st drops tt
    step-Sent plans vectors st frees_send = quietly st frees_send tt
    step-Sent plans vectors st (cancels_wait target) = quietly st (cancels_wait target) tt
    step-Sent plans vectors st (takes_waiter kind) = quietly st (takes_waiter kind) tt

    -- Over any life of a connection, in which sends, reads, failures, waits and the end of the peer
    -- come in any order, the life returns, and the plaintext that rustls has accepted grows by what
    -- the plans of the sends have consumed, send after send: none is lost, repeated or reordered.
    pub live-Sent :
        (laws : LifeLaws) (plans : PlanLaws) (vectors : VectoredLaws) (st : Session)
        (es : List Event)
        → (st' : Session) × (live st es ≡ some st')
          × (accepted (conn_of st').native
              ≡ accepted (conn_of st).native ++ life_sum event_sends st es)
    live-Sent laws plans vectors st es =
        let (st', e) = live_returns laws st es in
        let adds =
          live-sums event_sends Sent
            (λ all st e h.
              subst (λ xs. After (Sent (xs ++ event_sends st e)) (step st e)) h
                (step-Sent plans vectors st e))
            (accepted (conn_of st).native) st es refl in
        (
          st',
          e,
          after_life (Sent (accepted (conn_of st).native ++ life_sum event_sends st es)) e adds,
        )
