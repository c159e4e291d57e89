-- ===== src/Tls/Receive/Ended.antt =====
-- The two reads of a connection that has failed or whose peer has closed: they hand out nothing.
use tls.Base.{arith, ℕ, ◌≡◌, refl, ◌∙◌, Option, true, none, some, Result, ok, err, List, []}
use tls.Outside.{Outside}
use tls.Outside.Chunks.{Chunks, ChunkLaws}
use tls.Error.{Error}
use tls.State.Staged.{Release, Output}
use tls.State.Input.{Plain, into_chunk}
use tls.State.Input.Ended.{has_ended, owned-ended}
use tls.State.Source
use tls.State.Source.Window.{unread, of_plain-InRange, unread-of_plain}
use tls.Tls.{Connection}
use tls.Tls.Receive.{produce, read_batch, keep, retain}
use tls.Tls.Receive.Delivery.{batch_bytes}
use tls.Tls.Receive.Stream.{Retained, try_new}
use tls.Tls.Receive.Stream.Contents.{contents, Starts, try_new-Starts}

module _ ⦃o : Outside⦄ where
  open o use {Reserve}

  -- What a read makes of an ended connection: nothing, with `Q` of the connection.
  abbrev pub Nothing :
      {T : Type 0}
      → (T → List ℕ)
      → (Connection → Type 0)
      → Option (T × Result Error (Unit {0}) × Release × Connection)
      → Type 0
  Nothing shown Q none = ⊥
  Nothing shown Q (some (x, r, freed, conn)) = (shown x ≡ []) × Q conn

  pub read_batch-ended :
      (Q : Connection → Type 0) (conn : Connection) (bytes : List ℕ) (lease : Reserve)
      → has_ended conn ≡ true
      → Q conn
      → Nothing batch_bytes Q (read_batch conn bytes lease)
  unfolding read_batch produce into_chunk
  read_batch-ended Q conn bytes lease h q =
      rw (owned-ended conn bytes lease h, read_batch, produce) (refl, q)

  module _ ⦃k : Chunks⦄ where
    abbrev pub stream_bytes : Option Retained → List ℕ
    stream_bytes none = []
    stream_bytes (some r) = contents r

    keep-Nothing :
        (laws : ChunkLaws) (Q : Connection → Type 0)
        → ((conn : Connection) → Q conn → Q (record conn { failed = true }))
        → (output : Output) (plain : Source.Cursor) (conn : Connection)
        → (t : Result Error (Option Retained)) → unread plain ≡ []
        → Starts laws none plain t
        → Q conn
        → Nothing stream_bytes Q (some (keep t output conn))
    unfolding keep
    keep-Nothing laws Q on_fail output plain conn (err cause) e h q = (refl, on_fail conn q)
    keep-Nothing laws Q on_fail output plain conn (ok none) e h q = (refl, q)
    keep-Nothing laws Q on_fail output plain conn (ok (some r)) e h q = (h.1 ∙ e, q)

    pub retain-ended :
        (laws : ChunkLaws) (Q : Connection → Type 0)
        → ((conn : Connection) → Q conn → Q (record conn { failed = true }))
        → (conn : Connection) (bytes : List ℕ) (lease : Reserve) → has_ended conn ≡ true
        → Q conn
        → Nothing stream_bytes Q (retain conn bytes lease)
    unfolding retain
    retain-ended laws Q on_fail conn bytes lease h q =
        let plain : Plain = record { bytes = bytes; len = 0 } in
        let cursor = Source.of_plain plain in
        rw (owned-ended conn bytes lease h, retain)
          (keep-Nothing laws Q on_fail _ cursor conn (try_new none cursor) (unread-of_plain plain)
            (try_new-Starts laws none cursor (of_plain-InRange plain (omega arith))) q)
