-- ===== src/Tls/Receive/Emptied.antt =====
-- A read into a stream, and the reading of that stream.
use tls.Base.{
  ℕ, ◌-◌, ◌≤◌, ◌<◌, ◌≡◌, ◌⊎◌, true, ◌||◌, is_ok, ap, ◌∙◌, Option, none, some, Result, List, [],
  ◌++◌, length, arith,
}
use tls.Outside.{Outside}
use tls.Outside.Laws.{ReserveLaws, ReadLaws}
use tls.Outside.Chunks.{Chunks, ChunkLaws}
use tls.Error.{Error}
use tls.State.Staged.{Release}
use tls.Tls.{Connection}
use tls.Tls.Receive.{retain}
use tls.Tls.Receive.Delivery.{Keeps, retain-delivers}
use tls.Tls.Receive.Stream.{Retained}
use tls.Tls.Receive.Stream.Contents.{contents}
use tls.Tls.Receive.Stream.View.{Views, stream_len}
use tls.Tls.Receive.Stream.Shown.{ViewLaws}
use tls.Tls.Receive.Stream.Raw.{RawLaws}
use tls.Tls.Receive.Stream.Queue.{Call, run, run-Pulls, Pulls-order}
use tls.Tls.Receive.Stream.Emptied.{Asking, Pulls-short}

module _ ⦃o : Outside⦄ ⦃k : Chunks⦄ ⦃v : Views⦄ where
  -- What reading by `calls` gives of `handed`, the plaintext that rustls delivered.
  abbrev pub Reads : List Call → List ℕ → Option Retained → Connection → Type 0
  Reads calls handed none conn =
      (handed ≡ []) ⊎ ((k.max_bytes < length handed) × (conn.failed ≡ true))
  Reads calls handed (some r) conn =
      (gone : List ℕ) × (r' : Retained) × (run r calls ≡ some (gone, r'))
      × (gone ++ contents r' ≡ handed)
      × (stream_len r' ≤ length handed - length calls)

module _ ⦃o : Outside⦄ ⦃k : Chunks⦄ ⦃v : Views⦄ (laws : ChunkLaws) (reserves : ReserveLaws)
    (views : ViewLaws) (raws : RawLaws) (reads : ReadLaws) where
  open o use {Reserve, chunk_slice, freeze}

  Keeps-Reads :
      (calls : List Call) (handed : List ℕ) (s : Option Retained) (conn : Connection)
      → Asking calls
      → Keeps handed s conn
      → Reads calls handed s conn
  Keeps-Reads calls handed none conn a h = h
  Keeps-Reads calls handed (some r) conn a (h, same) =
      let (gone, r', ran, h', p) = run-Pulls laws reserves views raws r calls h in
      (
        gone,
        r',
        ran,
        Pulls-order p ∙ same,
        omega (arith, h'.counted, Pulls-short p a, ap length same),
      )

  -- A read into a stream, and then any calls for some bytes of it, return for every input. The calls
  -- take plaintext that rustls delivered during the read, from its front and in order, at least a
  -- byte each while there is any, and the stream holds what is behind. There is no stream if there
  -- is no plaintext, or if it is longer than a transfer may be, and then the connection has failed.
  pub retain-Reads :
      (conn : Connection) (bytes : List ℕ) (recv : Reserve) (calls : List Call)
      → chunk_slice (freeze recv) ≡ []
      → Asking calls
      → (r : Option Retained × Result Error (Unit {0}) × Release × Connection) × (handed : List ℕ)
        × (retain conn bytes recv ≡ some r)
        × (reads.delivered r.3.native ≡ reads.delivered conn.native ++ handed)
        × Reads calls handed r.0 r.3
        × ((is_ok r.1 || r.3.failed) ≡ true)
  retain-Reads conn bytes recv calls fresh a =
      let (r, handed, ran, d, keeps, f) =
        retain-delivers laws reserves reads conn bytes recv fresh in
      (r, handed, ran, d, Keeps-Reads calls handed r.0 r.3 a keeps, f)
