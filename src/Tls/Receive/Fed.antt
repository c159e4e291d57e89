-- ===== src/Tls/Receive/Fed.antt =====
-- The ciphertext that the two reads of a connection give to rustls.
use tls.Base.{
  ℕ, ◌≤◌, ◌≡◌, refl, ap, ◌∙◌, Option, some, Result, List, [], ◌++◌, length, take, inl, inr, ok, err,
  true, arith,
}
use tls.Outside.{Outside}
use tls.Outside.Laws.{ReserveLaws, ReadLaws, FeedLaws}
use tls.Outside.Chunks.{Chunks}
use tls.Error.{Error}
use tls.State.Staged.{Release, Output}
use tls.State.Source
use tls.State.Input.Fed.{Stops, owned-Feeds}
use tls.State.Input.{into_chunk}
use tls.State.Input.Ended.{has_ended}
use tls.Tls.{Connection}
use tls.Tls.Receive.{Batch, produce, read_batch, keep, retain}
use tls.Tls.Receive.Delivery.{keep-native}
use tls.Tls.Receive.Stream.{Retained, try_new}

module _ ⦃o : Outside⦄ (feeds : FeedLaws) where
  open o use {Reserve, chunk_slice, freeze}
  open feeds use {received}

  -- A read that starts with an empty slot returns, and feeds a front of its input.
  abbrev pub Feeding :
      {T : Type 0}
      → (Connection → Reserve → Option (T × Result Error (Unit {0}) × Release × Connection))
      → List ℕ
      → Type 0
  Feeding {T} read input =
      (conn : Connection) (lease : Reserve)
      → chunk_slice (freeze lease) ≡ []
      → (r : T × Result Error (Unit {0}) × Release × Connection) × (n : ℕ) × (read conn lease
          ≡ some r)
        × (n ≤ length input)
        × (received r.3.native ≡ received conn.native ++ take n input)
        × Stops input n r.3

  module _ (reserves : ReserveLaws) (reading : ReadLaws) where
    pub batch-Feeding : (input : List ℕ) → Feeding (λ conn lease. read_batch conn input lease) input
    unfolding read_batch produce
    batch-Feeding input conn lease fresh =
        let (r, e, fed) = owned-Feeds reserves reading feeds conn input lease fresh in
        let batch : Batch = record { owned_chunk = r.0.chunk; plain = into_chunk r.1 } in
        (
          (batch, r.0.control, r.0.release, r.2),
          fed.used,
          rw (e, read_batch, produce) refl,
          fed.within,
          fed.in_order,
          fed.stops,
        )

    keep-ended :
        ⦃k : Chunks⦄ (output : Output) (conn : Connection) (t : Result Error (Option Retained))
        → has_ended conn ≡ true
        → has_ended (keep t output conn).3 ≡ true
    unfolding keep
    keep-ended output conn (ok s) h = h
    keep-ended output conn (err e) h = ground (arith, h)

    pub stream-Feeding :
        ⦃k : Chunks⦄ (input : List ℕ) → Feeding (λ conn lease. retain conn input lease) input
    unfolding retain
    stream-Feeding input conn lease fresh =
        let ((output, plain, conn'), e, fed) =
          owned-Feeds reserves reading feeds conn input lease fresh in
        let t = try_new output.chunk (Source.of_plain plain) in
        (
          keep t output conn',
          fed.used,
          rw (e, retain) refl,
          fed.within,
          ap received (keep-native output conn' t) ∙ fed.in_order,
          elim fed.stops [
            | inl all ↦ inl all
            | inr (inl ended) ↦ inr (inl (keep-ended output conn' t ended))
            | inr (inr (m, none_taken, last)) ↦
                inr (inr (m, none_taken, keep-native output conn' t ∙ last))
          ],
        )
