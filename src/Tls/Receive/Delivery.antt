-- ===== src/Tls/Receive/Delivery.antt =====
-- What a read hands out is what rustls has delivered.
use tls.Base.{
  ℕ, ◌+◌, ◌⊎◌, ◌<◌, ◌≡◌, refl, sym, inl, inr, true, ◌||◌, is_ok, Option, none, some, Result, ok,
  err, List, [], ◌++◌, length, take, arith, append-nil,
}
use tls.Outside.{Outside}
use tls.Outside.Laws.{ReserveLaws, ReadLaws}
use tls.Outside.Chunks.{Chunks, ChunkLaws}
use tls.Error.{Error}
use tls.State.Staged.{Release, Output}
use tls.State.Input.{Plain, into_chunk}
use tls.State.Input.Read.{chunk_bytes}
use tls.State.Input.Delivery.{owned-Delivers}
use tls.State.Source
use tls.State.Source.Window.{unread, of_plain-InRange, unread-of_plain}
use tls.Tls.{Connection}
use tls.Tls.Receive.{
  Batch, Item, is_owned, is_borrowed, batch_len, next_item, produce, read_batch, keep, retain,
}
use tls.Tls.Receive.Stream.{Retained, try_new}
use tls.Tls.Receive.Stream.Contents.{contents, Whole, Starts, try_new-Starts}

module _ ⦃o : Outside⦄ where
  open o use {Reserve, Chunk, chunk_slice, freeze}

  abbrev pub item_bytes : Item → List ℕ
  item_bytes (is_owned chunk) = chunk_slice chunk
  item_bytes (is_borrowed bytes) = bytes

  abbrev plain_part : Option (List ℕ) → List ℕ
  plain_part none = []
  plain_part (some bytes) = bytes

  -- The plaintext of a batch, in the order of its items.
  abbrev pub batch_bytes : Batch → List ℕ
  batch_bytes b = chunk_bytes b.owned_chunk ++ plain_part b.plain

  abbrev pub Yields : Batch → Option (Item × Batch) → Type 0
  Yields b none = (batch_len b ≡ 0) × (batch_bytes b ≡ [])
  Yields b (some (item, b')) =
      (batch_len b ≡ batch_len b' + 1) × (batch_bytes b ≡ item_bytes item ++ batch_bytes b')

  Yields-fields :
      (c : Option Chunk) (p : Option (List ℕ))
      → let b : Batch = record { owned_chunk = c; plain = p } in Yields b (next_item b)
  unfolding next_item batch_len
  Yields-fields none none = (refl, refl)
  Yields-fields none (some p) = (refl, sym (append-nil p))
  Yields-fields (some c) none = (refl, refl)
  Yields-fields (some c) (some p) = (refl, refl)

  -- `len` counts the items that `next` still yields, and they are the plaintext in order.
  pub next_item-Yields : (b : Batch) → Yields b (next_item b)
  next_item-Yields b = Yields-fields b.owned_chunk b.plain

  into_chunk-part : (p : Plain) → plain_part (into_chunk p) ≡ take p.len p.bytes
  unfolding into_chunk
  into_chunk-part p = ground arith

  module _ (reserves : ReserveLaws) (reads : ReadLaws) where
    open reads use {delivered}

    -- A read into a batch returns for every input, and the items of the batch, in order, are the
    -- plaintext that rustls delivered during the read.
    pub read_batch-delivers :
        (conn : Connection) (bytes : List ℕ) (recv : Reserve)
        → chunk_slice (freeze recv) ≡ []
        → (r : Batch × Result Error (Unit {0}) × Release × Connection) × (read_batch conn bytes recv
            ≡ some r)
          × (delivered r.3.native ≡ delivered conn.native ++ batch_bytes r.0)
          × ((is_ok r.1 || r.3.failed) ≡ true)
    unfolding read_batch produce
    read_batch-delivers conn bytes recv fresh =
        let (r, e, d) = owned-Delivers reserves reads conn bytes recv fresh in
        let batch : Batch = record { owned_chunk = r.0.chunk; plain = into_chunk r.1 } in
        (
          (batch, r.0.control, r.0.release, r.2),
          rw (e, read_batch, produce) refl,
          rw (into_chunk-part r.1) d.in_order,
          d.fails,
        )

module _ ⦃o : Outside⦄ ⦃k : Chunks⦄ where
  open o use {Reserve, chunk_slice, freeze}

  -- What `retain` has made of `handed`, the plaintext that rustls delivered during the read.
  abbrev pub Keeps : List ℕ → Option Retained → Connection → Type 0
  Keeps handed (some r) conn = Whole r × (contents r ≡ handed)
  Keeps handed none conn = (handed ≡ []) ⊎ ((k.max_bytes < length handed) × (conn.failed ≡ true))

  keep-Keeps :
      (laws : ChunkLaws) (output : Output) (plain : Source.Cursor) (conn : Connection)
      (t : Result Error (Option Retained))
      → Starts laws output.chunk plain t
      → let (r, _, _, conn') = keep t output conn in
        Keeps (chunk_bytes output.chunk ++ unread plain) r conn'
  unfolding keep
  keep-Keeps laws output plain conn (err e) h = inr (h, refl)
  keep-Keeps laws output plain conn (ok none) h = inl h
  keep-Keeps laws output plain conn (ok (some r)) h = h

  keep-failed :
      (output : Output) (conn : Connection) (t : Result Error (Option Retained))
      → (is_ok output.control || conn.failed) ≡ true
      → let (_, control, _, conn') = keep t output conn in (is_ok control || conn'.failed) ≡ true
  unfolding keep
  keep-failed output conn (ok s) h = h
  keep-failed output conn (err e) h = ground arith

  pub keep-native :
      (output : Output) (conn : Connection) (t : Result Error (Option Retained))
      → (keep t output conn).3.native ≡ conn.native
  unfolding keep
  keep-native output conn (ok s) = refl
  keep-native output conn (err e) = refl

  -- A read into a stream returns for every input. The stream counts and holds the plaintext that
  -- rustls delivered during the read, in order; there is none if there is no plaintext, or if it is
  -- longer than a transfer may be, and then the connection has failed. An error fails it too.
  pub retain-delivers :
      (laws : ChunkLaws) (reserves : ReserveLaws) (reads : ReadLaws) (conn : Connection)
      (bytes : List ℕ) (recv : Reserve)
      → chunk_slice (freeze recv) ≡ []
      → (r : Option Retained × Result Error (Unit {0}) × Release × Connection) × (handed : List ℕ)
        × (retain conn bytes recv ≡ some r)
        × (reads.delivered r.3.native ≡ reads.delivered conn.native ++ handed)
        × Keeps handed r.0 r.3
        × ((is_ok r.1 || r.3.failed) ≡ true)
  unfolding retain
  retain-delivers laws reserves reads conn bytes recv fresh =
      let ((output, plain, conn'), e, d) = owned-Delivers reserves reads conn bytes recv fresh in
      let t = try_new output.chunk (Source.of_plain plain) in
      (
        keep t output conn',
        chunk_bytes output.chunk ++ unread (Source.of_plain plain),
        rw (e, retain) refl,
        rw (keep-native output conn' t, unread-of_plain plain) d.in_order,
        keep-Keeps laws output (Source.of_plain plain) conn' t (
            try_new-Starts laws output.chunk (Source.of_plain plain)
              (of_plain-InRange plain d.bounded)),
        keep-failed output conn' t d.fails,
      )
