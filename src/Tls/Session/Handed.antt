-- ===== src/Tls/Session/Handed.antt =====
-- The plaintext that a connection hands out over its life, in batches and in streams.
use tls.Base.{
  ℕ, ◌≡◌, ◌⊎◌, refl, sym, ap, ◌∙◌, inl, inr, true, Option, none, some, List, ◌++◌, append-nil,
  subst, arith, Extends, Extends-refl, Extends-of_eq,
}
use tls.Outside.{Outside}
use tls.Outside.Laws.{ReadLaws, ReserveLaws}
use tls.Outside.Progress.{Progress}
use tls.Outside.Vectored.{Vectored}
use tls.Outside.Slots.{Slots}
use tls.Outside.Chunks.{Chunks, ChunkLaws}
use tls.State.Input.Ended.{has_ended}
use tls.Tls.{Connection}
use tls.Tls.Encrypt.Silent.{SendLaws}
use tls.Tls.Receive.{read_batch, retain}
use tls.Tls.Receive.Delivery.{batch_bytes, read_batch-delivers, Keeps, retain-delivers}
use tls.Tls.Receive.Ended.{stream_bytes}
use tls.Tls.Receive.Stream.{Retained}
use tls.Tls.Senders.Silent.{delivers-SendKeeps}
use tls.Tls.Waiters.{Lanes}
use tls.Tls.Session.{
  Session, Event, sends, reads, leases, abandons, peer_ends, drops, frees_send, cancels_wait,
  takes_waiter, step, live,
}
use tls.Tls.Session.Counts.{LifeLaws}
use tls.Tls.Session.Ended.{step-Deaf, event_bytes-ended}
use tls.Tls.Session.Handing.{event_bytes, EventHands, step-Hands}
use tls.Tls.Session.Latched.{Latched-refl, step-Latched}
use tls.Tls.Session.Life.{life_sum, live-sums, after_life, live_returns}
use tls.Tls.Session.Reads.{Returned, After-Returned, Accounts, Hands}
use tls.Tls.Session.Rule.{After, After-both, conn_of}

module _ ⦃o : Outside⦄ ⦃k : Chunks⦄ (laws : ChunkLaws) (reserves : ReserveLaws) (reading : ReadLaws)
    (sending : SendLaws reading) where
  open reading use {delivered}

  -- `all` begins what was delivered, and is all of it unless the connection has failed.
  abbrev pub Handed : List ℕ → Connection → Type 0
  Handed all conn =
      Extends all (delivered conn.native) × ((delivered conn.native ≡ all) ⊎ (conn.failed ≡ true))

  exactly : (all : List ℕ) (conn : Connection) → delivered conn.native ≡ all → Handed all conn
  exactly all conn e = (Extends-of_eq e, inl e)

  pub Handed-Accounts : Accounts reading Handed
  Handed-Accounts = record {
    keeps = λ all. record {
      on_drain = λ conn out h.
          let same =
            (delivers-SendKeeps reading sending (delivered conn.native)).on_drain conn out refl in
          subst (λ bytes. Extends all bytes × ((bytes ≡ all) ⊎ (conn.failed ≡ true))) (sym same) h;
      on_fail = λ conn h. (h.0, inr refl);
      on_notify = λ conn h.
          let same =
            (delivers-SendKeeps reading sending (delivered conn.native)).on_notify conn refl in
          subst (λ bytes. Extends all bytes × ((bytes ≡ all) ⊎ (conn.failed ≡ true))) (sym same) h;
    };
    exact = exactly;
  }

  pub batch-Handed :
      (bytes : List ℕ)
      → Hands reading Handed batch_bytes (λ conn lease. read_batch conn bytes lease)
  batch-Handed bytes conn lease fresh =
      let (r, e, d, _) = read_batch-delivers reserves reading conn bytes lease fresh in
      (r, e, exactly _ r.3 d)

  kept_stream :
      (base handed : List ℕ) (stream : Option Retained) (conn : Connection)
      → delivered conn.native ≡ base ++ handed
      → Keeps handed stream conn
      → Handed (base ++ stream_bytes stream) conn
  kept_stream base handed (some r) conn d h =
      exactly _ conn (d ∙ ap (λ bytes. base ++ bytes) (sym h.1))
  kept_stream base handed none conn d (inl h) = exactly _ conn (d ∙ ap (λ bytes. base ++ bytes) h)
  kept_stream base handed none conn d (inr h) =
      ((handed, d ∙ ap (λ bytes. bytes ++ handed) (sym (append-nil base))), inr h.1)

  pub stream-Handed :
      (bytes : List ℕ) → Hands reading Handed stream_bytes (λ conn lease. retain conn bytes lease)
  stream-Handed bytes conn lease fresh =
      let (r, handed, e, d, h, _) = retain-delivers laws reserves reading conn bytes lease fresh in
      (r, e, kept_stream (delivered conn.native) handed r.0 r.3 d h)

module _ ⦃o : Outside⦄ ⦃s : Slots⦄ ⦃l : Lanes⦄ ⦃k : Chunks⦄ ⦃d : Progress⦄ ⦃v : Vectored⦄
    (laws : LifeLaws) (sending : SendLaws laws.reading) where
  open laws use {reading}

  abbrev HandedOut : List ℕ → Session → Type 0
  HandedOut all st = Handed laws.chunks laws.reserves reading sending all (conn_of st)

  hands_of :
      (e : Event) → EventHands reading sending (Handed laws.chunks laws.reserves reading sending) e
  hands_of (reads b credit bytes) = batch-Handed laws.chunks laws.reserves reading sending bytes
  hands_of (leases b credit bytes) = stream-Handed laws.chunks laws.reserves reading sending bytes
  hands_of (sends request) = tt
  hands_of (abandons b credit) = tt
  hands_of peer_ends = tt
  hands_of drops = tt
  hands_of frees_send = tt
  hands_of (cancels_wait target) = tt
  hands_of (takes_waiter kind) = tt

  step-Handed :
      (all : List ℕ) (st : Session) (e : Event)
      → HandedOut all st
      → After (HandedOut (all ++ event_bytes st e)) (step st e)
  step-Handed all st e (prefix, inl same) = After-Returned _ (step st e) (
      subst (λ xs. Returned (HandedOut (xs ++ event_bytes st e)) (step st e)) same
        (step-Hands reading sending (Handed laws.chunks laws.reserves reading sending)
          (Handed-Accounts laws.chunks laws.reserves reading sending) laws.fresh st e (hands_of e)))
  step-Handed all st e (prefix, inr failed) =
      let ended : has_ended (conn_of st) ≡ true = ground (arith, failed) in
      let nothing : all ++ event_bytes st e ≡ all =
        rw (event_bytes-ended laws.chunks reading sending st e ended) (append-nil all) in
      subst (λ xs. After (HandedOut xs) (step st e)) (sym nothing)
        (After-both _ _ _ (step st e)
          (λ st' deaf latched.
            (subst (Extends all) (sym deaf.1) prefix, inr (ground (arith, latched.0, failed))))
          (step-Deaf laws.chunks reading sending (reading.delivered (conn_of st).native) st e
            (ended, refl))
          (step-Latched (conn_of st) st e (Latched-refl (conn_of st))))

  -- Over any life of a connection, in which sends, reads, failures, waits and the end of the peer
  -- come in any order, the life returns, and the plaintext that has been handed out in batches and
  -- in streams begins what rustls has delivered, in order. It is all of it, unless the connection
  -- has failed.
  pub live-Handed :
      (st : Session) (es : List Event)
      → (st' : Session) × (live st es ≡ some st')
        × Extends
            (reading.delivered (conn_of st).native ++ life_sum event_bytes st es)
            (reading.delivered (conn_of st').native)
        × ((reading.delivered (conn_of st').native
              ≡ reading.delivered (conn_of st).native ++ life_sum event_bytes st es)
            ⊎ ((conn_of st').failed ≡ true))
  live-Handed st es =
      let (st', e) = live_returns laws st es in
      let base = reading.delivered (conn_of st).native in
      let h =
        after_life (HandedOut (base ++ life_sum event_bytes st es)) e
          (live-sums event_bytes HandedOut step-Handed base st es (Extends-refl _, inl refl)) in
      (st', e, h.0, h.1)
