-- ===== src/Tls/Receive/Stream/View.antt =====
-- src/tls/receive/stream.rs and raw.rs: what a retained stream and its head show, and their raw
-- consumption. A view of plaintext in place is the bytes that it shows.
use tls.Base.{ℕ, Option, none, some, Result, ok, err, List, [], length}
use tls.Outside.{Outside}
use tls.Outside.Chunks.{Chunks}
use tls.State.Source
use tls.Tls.Receive.Stream.{
  Retained, HeadBacking, staged_head, plain_head, non_empty, as_ref, next, commit,
}

-- Views of o3: of a chunk and of a cursor over it, ranges and fixed prefixes of views, and the
-- consumption of an admitted prefix.
pub record Views ⦃o : Outside⦄ ⦃k : Chunks⦄ : Type 1 where
  pub ChunkView : Type 0
  pub chunk_view : o.Chunk → ChunkView
  pub head_view : k.ChunkHead → ChunkView
  pub view_bytes : ChunkView → List ℕ
  pub RangeError : Type 0
  pub slice_try_get : List ℕ → ℕ → ℕ → Result RangeError (List ℕ)
  pub chunk_try_get : ChunkView → ℕ → ℕ → Result RangeError ChunkView
  pub plain_try_get : List ℕ → ℕ → ℕ → Result RangeError (List ℕ)
  pub slice_try_split : List ℕ → ℕ → Result o.ConsumeError (List ℕ × List ℕ)
  pub chunk_try_split : ChunkView → ℕ → Result o.ConsumeError (List ℕ × ChunkView)
  pub plain_try_split : List ℕ → ℕ → Result o.ConsumeError (List ℕ × List ℕ)
  pub chunk_consume_raw : k.ChunkHead → ℕ → k.ChunkHead

module _ ⦃o : Outside⦄ ⦃k : Chunks⦄ ⦃v : Views⦄ where
  open o use {ConsumeError}
  open v use {
    ChunkView, chunk_view, head_view, view_bytes, RangeError, slice_try_get, chunk_try_get,
    plain_try_get, slice_try_split, chunk_try_split, plain_try_split, chunk_consume_raw,
  }

  -- The backing of a Retention.
  pub data Backing : Type 0 where
    empty : Backing
    staged_view : ChunkView → Backing
    plain_view : List ℕ → Backing

  -- Retention::as_slice.
  unfoldable pub as_slice : Backing → List ℕ
  as_slice empty = []
  as_slice (staged_view plan) = view_bytes plan
  as_slice (plain_view plan) = plan

  -- Retained::view, a fault where the range of the plaintext is.
  unfoldable pub view : Retained → Option Backing
  unfolding non_empty
  view r = elim (non_empty r.staged) [
    | some chunk ↦ some (staged_view (chunk_view chunk))
    | none ↦ elim r.plain [
      | none ↦ some empty
      | some plain ↦ elim (Source.cursor_view plain) [
        | none ↦ none
        | some bytes ↦ some (plain_view bytes)
      ]
    ]
  ]

  -- The match of Retained::try_get and of Current::try_get.
  unfoldable pub view_try_get : Backing → ℕ → ℕ → Result RangeError Backing
  view_try_get empty start end = elim (slice_try_get [] start end) [
    | err cause ↦ err cause
    | ok bytes ↦ ok empty
  ]
  view_try_get (staged_view plan) start end = elim (chunk_try_get plan start end) [
    | err cause ↦ err cause
    | ok part ↦ ok (staged_view part)
  ]
  view_try_get (plain_view plan) start end = elim (plain_try_get plan start end) [
    | err cause ↦ err cause
    | ok part ↦ ok (plain_view part)
  ]

  -- Retained::try_get.
  unfoldable pub try_get : Retained → ℕ → ℕ → Option (Result RangeError Backing)
  unfolding view view_try_get
  try_get r start end = elim (view r) [
    | none ↦ none
    | some backing ↦ some (view_try_get backing start end)
  ]

  -- Retention::try_split of a prefix of `n` bytes.
  unfoldable pub try_split : Backing → ℕ → Result ConsumeError (List ℕ × Backing)
  try_split empty n = elim (slice_try_split [] n) [
    | err cause ↦ err cause
    | ok (head, _) ↦ ok (head, empty)
  ]
  try_split (staged_view plan) n = elim (chunk_try_split plan n) [
    | err cause ↦ err cause
    | ok (head, tail) ↦ ok (head, staged_view tail)
  ]
  try_split (plain_view plan) n = elim (plain_try_split plan n) [
    | err cause ↦ err cause
    | ok (head, tail) ↦ ok (head, plain_view tail)
  ]

  -- Current::view, try_get and as_ref.
  unfoldable pub current_view : HeadBacking → Option Backing
  current_view (staged_head head) = some (staged_view (head_view head))
  current_view (plain_head head) = elim (Source.head_view head) [
    | none ↦ none
    | some bytes ↦ some (plain_view bytes)
  ]

  unfoldable pub current_try_get : HeadBacking → ℕ → ℕ → Option (Result RangeError Backing)
  unfolding current_view view_try_get
  current_try_get current start end = elim (current_view current) [
    | none ↦ none
    | some backing ↦ some (view_try_get backing start end)
  ]

  unfoldable pub current_as_ref : HeadBacking → Option (List ℕ)
  unfolding current_view as_slice
  current_as_ref current = elim (current_view current) [
    | none ↦ none
    | some backing ↦ some (as_slice backing)
  ]

  -- Head::try_get.
  pub head_try_get : Source.Head → ℕ → ℕ → Option (Result RangeError (List ℕ))
  head_try_get h start end = elim (Source.head_view h) [
    | none ↦ none
    | some bytes ↦ some (plain_try_get bytes start end)
  ]

  -- The `remaining` of Current.
  pub current_len : HeadBacking → Option ℕ
  unfolding current_as_ref
  current_len current = elim (current_as_ref current) [
    | none ↦ none
    | some bytes ↦ some (length bytes)
  ]

  -- The `remaining` and `len` of Retained, over its whole contents.
  abbrev pub stream_len : Retained → ℕ
  stream_len r = r.remaining

  -- The `remaining` that consume::Consume of Retained gives.
  pub shown_len : Retained → Option ℕ
  unfolding as_ref
  shown_len r = elim (as_ref r) [ none ↦ none | some bytes ↦ some (length bytes) ]

  -- `consume` of Current and of Retained in raw.rs, of a prefix that is `count` long.
  unfoldable pub current_consume : HeadBacking → ℕ → Option HeadBacking
  current_consume (staged_head head) count = some (staged_head (chunk_consume_raw head count))
  current_consume (plain_head head) count = elim (Source.consume_raw head count) [
    | none ↦ none
    | some head' ↦ some (plain_head head')
  ]

  unfoldable pub consume : Retained → ℕ → Option Retained
  unfolding next commit current_consume
  consume r count = elim (next r) [
    | none ↦ some r
    | some current ↦ elim (current_consume current.backing count) [
      | none ↦ none
      | some backing ↦ elim (commit r backing current.left) [ none ↦ none | some (_, r') ↦ some r' ]
    ]
  ]
