-- ===== src/Tls/Session/Fed.antt =====
-- The ciphertext that a connection gives to rustls over its life.
use tls.Base.{
  ℕ, ◌≤◌, ◌≡◌, sym, ap, ◌∙◌, Bool, Option, none, some, Result, List, [], ◌∷◌, ◌++◌, length, take,
  append_assoc, append-nil,
}
use tls.Outside.{Outside}
use tls.Outside.Laws.{FeedLaws}
use tls.Outside.Progress.{Progress}
use tls.Outside.Vectored.{Vectored}
use tls.Outside.Slots.{Slots}
use tls.Outside.Chunks.{Chunks}
use tls.Error.{Error}
use tls.State.Staged.{Release}
use tls.State.Input.Fed.{Stops}
use tls.Tls.{Connection}
use tls.Tls.Receive.{read_batch, retain}
use tls.Tls.Encrypt.{one}
use tls.Tls.Encrypt.Vectored.{many}
use tls.Tls.Receive.Fed.{Feeding, batch-Feeding, stream-Feeding}
use tls.Tls.Waiters.{Lanes}
use tls.Tls.Policy.{Outcome, is_ready, is_blocked, is_failed, Reader, try_reserve}
use tls.Tls.Policy.Fresh.{FreshLaws, LeaseFresh, try_reserve-LeaseFresh}
use tls.Tls.Policy.Rule.{process_after}
use tls.Tls.Policy.Silent.{outcome_native, try_reserve-native}
use tls.Tls.Session.{
  Session, Event, sends, reads, leases, abandons, peer_ends, drops, frees_send, cancels_wait,
  takes_waiter, receive_outcome, receive_with, step, live,
}
use tls.Tls.Session.Counts.{LifeLaws}
use tls.Tls.Session.Life.{life_sum, live-sums, after_life, live_returns}
use tls.Tls.Session.Rule.{
  After, After-both, conn_of, wait_for-Kept, Admits, Encrypts-all, event-Kept, peer_eof-Kept,
}
use tls.Tls.Senders.Fed.{
  SendFeedLaws, receives-SendKeeps, seal-receives, one-receives, many-receives, none_fed,
}

-- The inputs of reads, each with the connection as its read leaves it, and of each input, in order,
-- a front. It is the whole input, unless that connection has ended, or the last call of the read gave
-- rustls the rest of the input and rustls took nothing of it.
pub data Fronts ⦃o : Outside⦄ : List (List ℕ × Connection) → List ℕ → Type 0 where
  nothing : Fronts [] []
  front :
      {inputs : List (List ℕ × Connection)} {fed : List ℕ} (input : List ℕ) (conn : Connection)
      (n : ℕ)
      → Fronts inputs fed
      → n ≤ length input
      → Stops input n conn
      → Fronts (inputs ++ ((input, conn) ∷ [])) (fed ++ take n input)

module _ ⦃o : Outside⦄ ⦃s : Slots⦄ ⦃l : Lanes⦄ where
  abbrev left_by :
      {T : Type 0}
      → Option (T × Result Error (Unit {0}) × Release × Connection)
      → Connection
      → Connection
  left_by none conn = conn
  left_by (some r) conn = r.3

  abbrev admitted : {T : Type 0} → Reader T → List ℕ → Outcome → List (List ℕ × Connection)
  admitted read input (is_ready txn) =
      (input, left_by (read txn.worker.conn txn.lease) txn.worker.conn) ∷ []
  admitted read input (is_blocked kind w) = []
  admitted read input (is_failed cause w) = []

  module _ ⦃k : Chunks⦄ ⦃d : Progress⦄ ⦃v : Vectored⦄ where
    -- The input of an event whose read is admitted, and the connection that the read leaves.
    abbrev pub event_inputs : Session → Event → List (List ℕ × Connection)
    event_inputs st (reads b credit input) =
        admitted (λ conn lease. read_batch conn input lease) input (try_reserve b st.worker)
    event_inputs st (leases b credit input) =
        admitted (λ conn lease. retain conn input lease) input (try_reserve b st.worker)
    event_inputs st _ = []

module _ ⦃o : Outside⦄ ⦃s : Slots⦄ ⦃l : Lanes⦄ (feeds : FeedLaws) (sending : SendFeedLaws feeds)
    (base : List ℕ) where
  open feeds use {received}

  -- Behind `base`, rustls has taken fronts of the inputs.
  pub Given : List (List ℕ × Connection) → Session → Type 0
  Given inputs st =
      (fed : List ℕ) × Fronts inputs fed × (received (conn_of st).native ≡ base ++ fed)

  receives_more :
      {T : Type 0} (read : Reader T) (input : List ℕ)
      → Feeding feeds read input
      → (credit : Option l.Held) (st : Session) (inputs : List (List ℕ × Connection)) (fed : List ℕ)
      → Fronts inputs fed
      → (out : Outcome) → LeaseFresh out
      → received (outcome_native out) ≡ base ++ fed
      → After (Given (inputs ++ admitted read input out)) (receive_outcome read credit st out)
  unfolding receive_outcome Given
  receives_more read input feeding credit st inputs fed f (is_failed cause w) fresh h =
      rw append-nil (fed, f, h)
  receives_more read input feeding credit st inputs fed f (is_blocked kind w) fresh h =
      rw append-nil
        (fed, f, wait_for-Kept (λ conn. received conn.native ≡ base ++ fed) st w kind credit h)
  receives_more read input feeding credit st inputs fed f (is_ready txn) fresh h =
      let ((x, r, freed, conn), n, e, le, more, stops) = feeding txn.worker.conn txn.lease fresh in
      let fed' = fed ++ take n input in
      let all : received conn.native ≡ base ++ fed' =
        more ∙ ap (λ bytes. bytes ++ take n input) h ∙ append_assoc base fed (take n input) in
      let (p, w, ran, kept) =
        process_after (λ c. received c.native ≡ base ++ fed')
          (receives-SendKeeps feeds sending (base ++ fed')) read txn e all in
      rw (ran, e, receive_outcome) (fed', front input conn n f le stops, kept)

  receives_with :
      {T : Type 0} (read : Reader T) (input : List ℕ)
      → Feeding feeds read input
      → FreshLaws
      → (b : Bool) (credit : Option l.Held) (inputs : List (List ℕ × Connection)) (st : Session)
      → Given inputs st
      → After
          (Given (inputs ++ admitted read input (try_reserve b st.worker)))
          (receive_with read b credit st)
  unfolding receive_with Given
  receives_with read input feeding fresh b credit inputs st (fed, f, h) =
      receives_more read input feeding credit st inputs fed f (try_reserve b st.worker)
        (try_reserve-LeaseFresh fresh b st.worker)
        (ap received (try_reserve-native b st.worker) ∙ h)

module _ ⦃o : Outside⦄ ⦃s : Slots⦄ ⦃l : Lanes⦄ ⦃k : Chunks⦄ ⦃d : Progress⦄ ⦃v : Vectored⦄
    (laws : LifeLaws) (feeds : FeedLaws) (sending : SendFeedLaws feeds) where
  open feeds use {received}

  -- An event that reads no input.
  feeds_nothing :
      (base : List ℕ) (inputs : List (List ℕ × Connection)) (st : Session) (e : Event)
      → ((fed : List ℕ) → Admits (λ conn. received conn.native ≡ base ++ fed) e)
      → Given feeds sending base inputs st
      → After (Given feeds sending base (inputs ++ [])) (step st e)
  unfolding Given
  feeds_nothing base inputs st e quiet (fed, f, h) =
      let P : Connection → Type 0 = λ conn. received conn.native ≡ base ++ fed in
      let keeps = receives-SendKeeps feeds sending (base ++ fed) in
      let seals =
        Encrypts-all P keeps
          (seal-receives feeds sending (base ++ fed) one (one-receives feeds sending (base ++ fed)))
          (seal-receives feeds sending (base ++ fed) many
            (many-receives feeds sending (base ++ fed)))
          st e in
      let next = event-Kept P keeps st e seals (quiet fed) h in
      rw append-nil (After-both _ _ _ (step st e) (λ st' now _. (fed, f, now)) next next)

  step-Given :
      (base : List ℕ) (inputs : List (List ℕ × Connection)) (st : Session) (e : Event)
      → Given feeds sending base inputs st
      → After (Given feeds sending base (inputs ++ event_inputs st e)) (step st e)
  unfolding step
  step-Given base inputs st (reads b credit input) h =
      receives_with feeds sending base _ input
        (batch-Feeding feeds laws.reserves laws.reading input) laws.fresh b credit inputs st h
  step-Given base inputs st (leases b credit input) h =
      receives_with feeds sending base _ input
        (stream-Feeding feeds laws.reserves laws.reading input) laws.fresh b credit inputs st h
  step-Given base inputs st peer_ends h =
      feeds_nothing base inputs st peer_ends
        (λ fed.
          peer_eof-Kept _ (λ conn e. none_fed feeds conn.native ∙ e)
            (λ conn e. feeds.fill_buf-received conn.native ∙ e) (λ conn e. e))
        h
  step-Given base inputs st (sends request) h =
      feeds_nothing base inputs st (sends request) (λ fed. tt) h
  step-Given base inputs st (abandons b credit) h =
      feeds_nothing base inputs st (abandons b credit) (λ fed. tt) h
  step-Given base inputs st drops h = feeds_nothing base inputs st drops (λ fed. tt) h
  step-Given base inputs st frees_send h = feeds_nothing base inputs st frees_send (λ fed. tt) h
  step-Given base inputs st (cancels_wait target) h =
      feeds_nothing base inputs st (cancels_wait target) (λ fed. tt) h
  step-Given base inputs st (takes_waiter kind) h =
      feeds_nothing base inputs st (takes_waiter kind) (λ fed. tt) h

  -- Over any life of a connection, in which sends, reads, failures, waits and the end of the peer
  -- come in any order, the life returns, and rustls is given of the input of each admitted read, in
  -- order, a front, and nothing else: no received byte is repeated or reordered, though the reads
  -- write plaintext over their input. The front is the whole input, unless by the end of that read
  -- the connection has failed or the peer has closed, or the last call of that read gave rustls the
  -- rest of the input and rustls took nothing of it.
  pub live-Fed :
      (st : Session) (es : List Event)
      → (st' : Session) × (fed : List ℕ) × (live st es ≡ some st')
        × Fronts (life_sum event_inputs st es) fed
        × (received (conn_of st').native ≡ received (conn_of st).native ++ fed)
  unfolding Given
  live-Fed st es =
      let (st', e) = live_returns laws st es in
      let base = received (conn_of st).native in
      let (fed, f, h) = after_life (Given feeds sending base (life_sum event_inputs st es)) e (
        live-sums event_inputs (Given feeds sending base) (step-Given base) [] st es
          ([], nothing, sym (append-nil base))) in
      (st', fed, e, f, h)
