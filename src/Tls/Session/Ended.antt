-- ===== src/Tls/Session/Ended.antt =====
-- A connection that has failed, or whose peer has closed, hands out nothing more.
use tls.Base.{
  ℕ, ◌≡◌, refl, ◌∙◌, inl, inr, Option-cases, Bool, true, Option, none, some, Result, List, [], ◌++◌,
  subst, arith,
}
use tls.Outside.{Outside}
use tls.Outside.Laws.{ReadLaws}
use tls.Outside.Progress.{Progress}
use tls.Outside.Vectored.{Vectored}
use tls.Outside.Slots.{Slots}
use tls.Outside.Chunks.{Chunks, ChunkLaws}
use tls.Error.{Error}
use tls.State.Staged.{Release}
use tls.State.Input.Ended.{has_ended}
use tls.Tls.{Connection}
use tls.Tls.Encrypt.{Attempts, seal, one}
use tls.Tls.Encrypt.Vectored.{many}
use tls.Tls.Encrypt.Failure.{seal-Flags}
use tls.Tls.Encrypt.Silent.{SendLaws, Silent, seal-delivered, one-Silent}
use tls.Tls.Encrypt.Vectored.Silent.{many-Silent}
use tls.Tls.Receive.{read_batch, retain}
use tls.Tls.Receive.Delivery.{batch_bytes}
use tls.Tls.Receive.Ended.{Nothing, stream_bytes, read_batch-ended, retain-ended}
use tls.Tls.Receive.Rule.{ReadKept}
use tls.Tls.Senders.Rule.{SendKeeps}
use tls.Tls.Senders.Silent.{delivers-SendKeeps}
use tls.Tls.Waiters.{Lanes}
use tls.Tls.Policy.{Outcome, is_ready, is_blocked, is_failed, Reader, try_reserve}
use tls.Tls.Policy.Rule.{outcome_conn, try_reserve-Kept}
use tls.Tls.Session.{
  Session, Event, sends, reads, leases, abandons, peer_ends, drops, frees_send, cancels_wait,
  takes_waiter, step, live,
}
use tls.Tls.Session.Counts.{LifeLaws}
use tls.Tls.Session.Handing.{event_bytes}
use tls.Tls.Session.Life.{life_sum, live-sums, after_life, live_returns}
use tls.Tls.Session.Reads.{outcome_bytes}
use tls.Tls.Session.Rule.{
  After, After-both, conn_of, Reading, Encrypts-all, step-Kept, peer_eof-Kept,
}

module _ ⦃o : Outside⦄ ⦃k : Chunks⦄ (laws : ChunkLaws) (reading : ReadLaws)
    (sending : SendLaws reading) (bytes : List ℕ) where
  open reading use {delivered}

  -- An ended connection that has delivered `bytes`.
  abbrev pub Deaf : Connection → Type 0
  Deaf conn = (has_ended conn ≡ true) × (delivered conn.native ≡ bytes)

  pub Deaf-SendKeeps : SendKeeps Deaf
  Deaf-SendKeeps =
      let rule = delivers-SendKeeps reading sending bytes in
      record {
        on_drain = λ conn out h. (h.0, rule.on_drain conn out h.1);
        on_fail = λ conn h. (ground (arith, h.0), h.1);
        on_notify = λ conn h. (h.0, rule.on_notify conn h.1);
      }

  of_Nothing :
      {T : Type 0} (shown : T → List ℕ)
      (r : Option (T × Result Error (Unit {0}) × Release × Connection))
      → Nothing shown Deaf r
      → ReadKept Deaf r
  of_Nothing shown none h = tt
  of_Nothing shown (some r) h = h.1

  Deaf-Reading : Reading Deaf
  Deaf-Reading = record {
    on_batch =
        λ bs conn lease h. of_Nothing batch_bytes _ (read_batch-ended Deaf conn bs lease h.0 h);
    on_stream = λ bs conn lease h.
        of_Nothing stream_bytes _
          (retain-ended laws Deaf Deaf-SendKeeps.on_fail conn bs lease h.0 h);
    on_eof =
        peer_eof-Kept Deaf (λ conn h. (h.0, reading.read_tls-delivered conn.native [] ∙ h.1))
          (λ conn h. (h.0, reading.fill_buf-delivered conn.native ∙ h.1)) Deaf-SendKeeps.on_fail;
  }

  seal-Deaf :
      (a : Attempts)
      → Silent reading a
      → (conn : Connection) (out : o.Cursor) (plain : a.Left) → Deaf conn
      → Deaf (seal a conn out plain).1
  seal-Deaf a silent conn out plain h =
      let f = seal-Flags a conn out plain in
      (
        ground (arith, h.0, f.failed, f.peer_closed),
        seal-delivered reading sending a silent conn out plain ∙ h.1,
      )

module _ ⦃o : Outside⦄ ⦃s : Slots⦄ ⦃l : Lanes⦄ ⦃k : Chunks⦄ ⦃d : Progress⦄ ⦃v : Vectored⦄
    (laws : ChunkLaws) (reading : ReadLaws) (sending : SendLaws reading) where
  open reading use {delivered}

  pub step-Deaf :
      (bytes : List ℕ) (st : Session) (e : Event)
      → Deaf laws reading sending bytes (conn_of st)
      → After (λ st'. Deaf laws reading sending bytes (conn_of st')) (step st e)
  step-Deaf bytes st e h =
      let P = Deaf laws reading sending bytes in
      let keeps = Deaf-SendKeeps laws reading sending bytes in
      step-Kept P (Deaf-Reading laws reading sending bytes) keeps st e
        (Encrypts-all P keeps (seal-Deaf laws reading sending bytes one (one-Silent reading))
          (seal-Deaf laws reading sending bytes many (many-Silent reading sending)) st e)
        h

  -- A receive on an ended connection hands out nothing.
  Nothing-handed :
      {T : Type 0} (shown : T → List ℕ) (read : Reader T)
      → ((conn : Connection) (lease : o.Reserve)
          → has_ended conn ≡ true
          → Nothing shown (λ _. Unit {0}) (read conn lease))
      → (out : Outcome) → has_ended (outcome_conn out) ≡ true
      → outcome_bytes shown read out ≡ []
  Nothing-handed shown read nothing (is_failed cause w) h = refl
  Nothing-handed shown read nothing (is_blocked kind w) h = refl
  Nothing-handed shown read nothing (is_ready txn) h =
      let empty = nothing txn.worker.conn txn.lease h in
      elim (Option-cases (read txn.worker.conn txn.lease)) [
        | inl e ↦ rw e refl
        | inr (r, e) ↦ rw e (subst (Nothing shown (λ _. Unit {0})) e empty).0
      ]

  reserved-ended :
      (b : Bool) (st : Session)
      → has_ended (conn_of st) ≡ true
      → has_ended (outcome_conn (try_reserve b st.worker)) ≡ true
  reserved-ended b st h =
      try_reserve-Kept (λ conn. has_ended conn ≡ true) (λ conn q. ground (arith, q)) b st.worker h

  pub event_bytes-ended :
      (st : Session) (e : Event) → has_ended (conn_of st) ≡ true → event_bytes st e ≡ []
  event_bytes-ended st (reads b credit bs) h =
      Nothing-handed batch_bytes (λ conn lease. read_batch conn bs lease)
        (λ conn lease q. read_batch-ended (λ _. Unit {0}) conn bs lease q tt)
        (try_reserve b st.worker) (reserved-ended b st h)
  event_bytes-ended st (leases b credit bs) h =
      Nothing-handed stream_bytes (λ conn lease. retain conn bs lease)
        (λ conn lease q. retain-ended laws (λ _. Unit {0}) (λ _ _. tt) conn bs lease q tt)
        (try_reserve b st.worker) (reserved-ended b st h)
  event_bytes-ended st (sends request) h = refl
  event_bytes-ended st (abandons b credit) h = refl
  event_bytes-ended st peer_ends h = refl
  event_bytes-ended st drops h = refl
  event_bytes-ended st frees_send h = refl
  event_bytes-ended st (cancels_wait target) h = refl
  event_bytes-ended st (takes_waiter kind) h = refl

module _ ⦃o : Outside⦄ ⦃s : Slots⦄ ⦃l : Lanes⦄ ⦃k : Chunks⦄ ⦃d : Progress⦄ ⦃v : Vectored⦄
    (laws : LifeLaws) (sending : SendLaws laws.reading) where
  open laws.reading use {delivered}

  abbrev Silenced : List ℕ → List ℕ → Session → Type 0
  Silenced bytes handed st =
      Deaf laws.chunks laws.reading sending bytes (conn_of st) × (handed ≡ [])

  step-Silenced :
      (bytes handed : List ℕ) (st : Session) (e : Event)
      → Silenced bytes handed st
      → After (Silenced bytes (handed ++ event_bytes st e)) (step st e)
  step-Silenced bytes handed st e (deaf, none_yet) =
      let still : handed ++ event_bytes st e ≡ [] =
        rw (none_yet, event_bytes-ended laws.chunks laws.reading sending st e deaf.0) refl in
      let next = step-Deaf laws.chunks laws.reading sending bytes st e deaf in
      After-both _ _ _ (step st e) (λ st' now _. (now, still)) next next

  -- Once a connection has failed, or has read the end of its peer, it stays so over the rest of its
  -- life, whatever comes: it returns, hands out no plaintext, and consumes none of what rustls has.
  pub live-Ended :
      (st : Session) (es : List Event)
      → has_ended (conn_of st) ≡ true
      → (st' : Session) × (live st es ≡ some st')
        × (has_ended (conn_of st') ≡ true)
        × (delivered (conn_of st').native ≡ delivered (conn_of st).native)
        × (life_sum event_bytes st es ≡ [])
  live-Ended st es h =
      let (st', e) = live_returns laws st es in
      let base = delivered (conn_of st).native in
      let (deaf, nothing) =
        after_life (Silenced base (life_sum event_bytes st es)) e
          (live-sums event_bytes (Silenced base) (step-Silenced base) [] st es ((h, refl), refl)) in
      (st', e, deaf.0, deaf.1, nothing)
