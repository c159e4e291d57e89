-- ===== src/Tls/Receive/Rule.antt =====
-- A rule for the two reads of src/tls/receive/mod.rs: what one read of rustls keeps of a connection,
-- they keep.
use tls.Base.{inl, inr, Option-cases, Option, none, some, Result, ok, err, List, ℕ, subst}
use tls.Outside.{Outside}
use tls.Outside.Chunks.{Chunks}
use tls.Error.{Error}
use tls.State.Staged.{Release, Output}
use tls.State.Input.{owned}
use tls.State.Input.Rule.{ReadKeeps, OwnedKept, owned-Kept}
use tls.State.Source
use tls.Tls.{Connection}
use tls.Tls.Receive.{produce, read_batch, keep, retain}
use tls.Tls.Receive.Stream.{Retained, try_new}

module _ ⦃o : Outside⦄ where
  open o use {Reserve}

  abbrev pub ReadKept :
      {T : Type 0}
      → (Connection → Type 0)
      → Option (T × Result Error (Unit {0}) × Release × Connection)
      → Type 0
  ReadKept P none = Unit
  ReadKept P (some (x, r, freed, conn)) = P conn

  -- A read that keeps `P`.
  abbrev pub ReaderKeeps :
      {T : Type 0}
      → (Connection → Type 0)
      → (Connection → Reserve → Option (T × Result Error (Unit {0}) × Release × Connection))
      → Type 0
  ReaderKeeps P read = (conn : Connection) (lease : Reserve) → P conn → ReadKept P (read conn lease)

  module _ (P : Connection → Type 0) (keeps : ReadKeeps P) where
    pub read_batch-Kept :
        (bytes : List ℕ) → ReaderKeeps P (λ conn lease. read_batch conn bytes lease)
    unfolding read_batch produce
    read_batch-Kept bytes conn lease h =
        let kept = owned-Kept P keeps conn bytes lease h in
        elim (Option-cases (owned conn bytes lease)) [
          | inl e ↦ rw (e, read_batch, produce) tt
          | inr (r, e) ↦ rw (e, read_batch, produce) (subst (OwnedKept P) e kept)
        ]

    module _ ⦃k : Chunks⦄ where
      keep-Kept :
          (t : Result Error (Option Retained)) (output : Output) (conn : Connection)
          → P conn
          → P (keep t output conn).3
      unfolding keep
      keep-Kept (ok stream) output conn h = h
      keep-Kept (err cause) output conn h = keeps.on_fail conn h

      pub retain-Kept : (bytes : List ℕ) → ReaderKeeps P (λ conn lease. retain conn bytes lease)
      unfolding retain
      retain-Kept bytes conn lease h =
          let kept = owned-Kept P keeps conn bytes lease h in
          elim (Option-cases (owned conn bytes lease)) [
            | inl e ↦ rw (e, retain) tt
            | inr ((output, plain, conn'), e) ↦
                rw (e, retain)
                  (keep-Kept (try_new output.chunk (Source.of_plain plain)) output conn'
                    (subst (OwnedKept P) e kept))
          ]
