-- ===== src/Tls/Receive.antt =====
-- src/tls/receive/mod.rs, and Producer and Batch of src/tls/receive/raw.rs: what the plaintext of a
-- read is handed out as, a batch of at most two items or one retained stream.
pub mod Stream
pub mod Rule
pub mod Delivery
pub mod Ended
pub mod Emptied
pub mod Fed
use tls.Base.{ℕ, ◌+◌, Bool, true, false, Option, none, some, Result, ok, err, List}
use tls.Outside.{Outside}
use tls.Outside.Chunks.{Chunks}
use tls.Error.{Error}
use tls.State.Staged.{Release, released, Output}
use tls.State.Input.{Plain, owned, into_chunk}
use tls.State.Source
use tls.Tls.{Connection}
use tls.Tls.Receive.Stream.{Retained, try_new}

module _ ⦃o : Outside⦄ where
  open o use {Chunk, Reserve}

  pub record Batch : Type 0 where
    pub owned_chunk : Option Chunk
    pub plain : Option (List ℕ)

  -- bytes::Source.
  pub data Item : Type 0 where
    is_owned : Chunk → Item
    is_borrowed : List ℕ → Item

  abbrev count_some : {A : Type 0} → Option A → ℕ
  count_some none = 0
  count_some (some a) = 1

  -- Batch::len.
  pub batch_len : Batch → ℕ
  batch_len batch = count_some batch.owned_chunk + count_some batch.plain

  -- Batch::next.
  pub next_item : Batch → Option (Item × Batch)
  next_item batch = elim batch.owned_chunk [
    | some chunk ↦ some (is_owned chunk, record batch { owned_chunk = none })
    | none ↦ elim batch.plain [
      | some plain ↦ some (is_borrowed plain, record batch { plain = none })
      | none ↦ none
    ]
  ]

  -- Producer::produce: the batch, and what it writes to `control`.
  pub produce :
      Connection
      → List ℕ
      → Reserve
      → Option (Batch × Result Error (Unit {0}) × Release × Connection)
  produce conn bytes recv = elim (owned conn bytes recv) [
    | none ↦ none
    | some (output, plain, conn') ↦ some (
      record { owned_chunk = output.chunk; plain = into_chunk plain },
      output.control,
      output.release,
      conn',
    )
  ]

  -- Ingress::read_batch: the grant of dope calls the producer once.
  pub read_batch :
      Connection
      → List ℕ
      → Reserve
      → Option (Batch × Result Error (Unit {0}) × Release × Connection)
  unfolding produce
  read_batch conn bytes recv = produce conn bytes recv

module _ ⦃o : Outside⦄ ⦃k : Chunks⦄ where
  open o use {Reserve}

  -- The end of Ingress::retain, over what `try_new` gives. A stream that is too long fails the
  -- connection, and its chunk is dropped.
  pub keep :
      Result Error (Option Retained)
      → Output
      → Connection
      → Option Retained × Result Error (Unit {0}) × Release × Connection
  keep (ok stream) output conn = (stream, output.control, output.release, conn)
  keep (err cause) output conn = (
    none,
    elim output.control [ ok _ ↦ err cause | err first ↦ err first ],
    released,
    record conn { failed = true },
  )

  -- Ingress::retain.
  pub retain :
      Connection
      → List ℕ
      → Reserve
      → Option (Option Retained × Result Error (Unit {0}) × Release × Connection)
  unfolding keep
  retain conn bytes recv = elim (owned conn bytes recv) [
    | none ↦ none
    | some (output, plain, conn') ↦
        some (keep (try_new output.chunk (Source.of_plain plain)) output conn')
  ]
