-- ===== src/Tls/Session/Delivered.antt =====
-- The plaintext that a connection hands out in batches over its life.
use tls.Base.{
  ℕ, ◌≡◌, refl, sym, ap, subst, ◌∙◌, inl, inr, Option-cases, Bool, true, false, List, [], ◌∷◌, ◌++◌,
  append_assoc, append-nil, arith,
}
use tls.Outside.{Outside}
use tls.Outside.Laws.{ReadLaws, ReserveLaws}
use tls.Outside.Progress.{Progress}
use tls.Outside.Vectored.{Vectored}
use tls.Outside.Slots.{Slots}
use tls.Outside.Chunks.{Chunks}
use tls.Tls.{Connection}
use tls.Tls.Encrypt.Silent.{SendLaws}
use tls.Tls.Waiters.{Lanes}
use tls.Tls.Policy.Fresh.{FreshLaws}
use tls.Tls.Session.{
  Session, Event, sends, reads, leases, abandons, peer_ends, drops, frees_send, cancels_wait,
  takes_waiter, step, live,
}
use tls.Tls.Session.Reads.{Returned, Accounts, Hands}
use tls.Tls.Session.Rule.{conn_of}
use tls.Tls.Session.Life.{life_sum}
use tls.Tls.Receive.{read_batch}
use tls.Tls.Receive.Delivery.{batch_bytes, read_batch-delivers}
use tls.Tls.Senders.Silent.{delivers-SendKeeps}
use tls.Tls.Session.Handing.{event_bytes, EventHands, step-Hands}

module _ ⦃o : Outside⦄ ⦃s : Slots⦄ ⦃l : Lanes⦄ ⦃k : Chunks⦄ ⦃d : Progress⦄ ⦃v : Vectored⦄ where
  -- Whether every read is into a batch.
  abbrev pub batches : List Event → Bool
  batches [] = true
  batches (leases b credit bytes ∷ es) = false
  batches (e ∷ es) = batches es

module _ ⦃o : Outside⦄ ⦃s : Slots⦄ ⦃l : Lanes⦄ ⦃k : Chunks⦄ ⦃d : Progress⦄ ⦃v : Vectored⦄
    (reading : ReadLaws) (sending : SendLaws reading) where
  open reading use {delivered}

  -- All that was delivered has been handed out.
  abbrev pub Delivered : List ℕ → Connection → Type 0
  Delivered all conn = delivered conn.native ≡ all

  Delivered-Accounts : Accounts reading Delivered
  Delivered-Accounts = record {
    keeps = delivers-SendKeeps reading sending;
    exact = λ all conn e. e;
  }

  batch-Hands :
      (reserves : ReserveLaws) (bytes : List ℕ)
      → Hands reading Delivered batch_bytes (λ conn lease. read_batch conn bytes lease)
  batch-Hands reserves bytes conn lease fresh =
      let (r, e, d, _) = read_batch-delivers reserves reading conn bytes lease fresh in (r, e, d)

  step-Delivered :
      (fresh : FreshLaws) (reserves : ReserveLaws) (st : Session) (e : Event)
      → batches (e ∷ []) ≡ true
      → Returned
          (λ st'. Delivered (delivered (conn_of st).native ++ event_bytes st e) (conn_of st'))
          (step st e)
  step-Delivered fresh reserves st e h =
      step-Hands reading sending Delivered Delivered-Accounts fresh st e (hands_of e h)
    where
      hands_of : (e : Event) → batches (e ∷ []) ≡ true → EventHands reading sending Delivered e
      hands_of (leases b credit bytes) h = absurd (ground (arith, h))
      hands_of (reads b credit bytes) h = batch-Hands reserves bytes
      hands_of (sends request) h = tt
      hands_of (abandons b credit) h = tt
      hands_of peer_ends h = tt
      hands_of drops h = tt
      hands_of frees_send h = tt
      hands_of (cancels_wait target) h = tt
      hands_of (takes_waiter kind) h = tt

  batches-split :
      (e : Event) (es : List Event)
      → batches (e ∷ es) ≡ true
      → (batches (e ∷ []) ≡ true) × (batches es ≡ true)
  batches-split (leases b credit bytes) es h = absurd (ground (arith, h))
  batches-split (sends request) es h = (refl, h)
  batches-split (reads b credit bytes) es h = (refl, h)
  batches-split (abandons b credit) es h = (refl, h)
  batches-split peer_ends es h = (refl, h)
  batches-split drops es h = (refl, h)
  batches-split frees_send es h = (refl, h)
  batches-split (cancels_wait target) es h = (refl, h)
  batches-split (takes_waiter kind) es h = (refl, h)

  -- Over any life of a connection that reads into batches, in which sends, reads, failures, waits and
  -- the end of the peer come in any order, the plaintext of the batches, in their order, is all that
  -- rustls has delivered: sending and failing neither lose, repeat nor reorder any of it.
  pub live-Delivered :
      (fresh : FreshLaws) (reserves : ReserveLaws) (st : Session) (es : List Event)
      → batches es ≡ true
      → Returned
          (λ st'.
            Delivered (delivered (conn_of st).native ++ life_sum event_bytes st es) (conn_of st'))
          (live st es)
  unfolding live life_sum
  live-Delivered fresh reserves st [] h = sym (append-nil _)
  live-Delivered fresh reserves st (e ∷ es) h =
      let (now, later) = batches-split e es h in
      let base = delivered (conn_of st).native in
      let Q = λ (all : List ℕ) (st' : Session). Delivered all (conn_of st') in
      let first = step-Delivered fresh reserves st e now in
      elim (Option-cases (step st e)) [
        | inl f ↦ absurd (subst (Returned (Q (base ++ event_bytes st e))) f first)
        | inr (st', f) ↦
            let got : delivered (conn_of st').native ≡ base ++ event_bytes st e =
              subst (Returned (Q (base ++ event_bytes st e))) f first in
            let rest = live-Delivered fresh reserves st' es later in
            rw (f, live, life_sum)
              (subst (λ bytes. Returned (Q bytes) (live st' es))
                (ap (λ bytes. bytes ++ life_sum event_bytes st' es) got
                  ∙ append_assoc base (event_bytes st e) (life_sum event_bytes st' es))
                rest)
      ]
