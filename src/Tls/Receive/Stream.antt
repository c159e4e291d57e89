-- ===== src/Tls/Receive/Stream.antt =====
-- src/tls/receive/stream.rs: the plaintext of a read as one stream, the chunk of the receive buffer
-- first, then the plaintext in place. A `Current` borrows the stream that it is the head of, so
-- `commit` takes the stream and gives it back.
pub mod Contents
pub mod Consume
pub mod TryConsume
pub mod View
pub mod Shown
pub mod Raw
pub mod Retain
pub mod Front
pub mod Queue
pub mod Emptied
use tls.Base.{
  ℕ, ◌-◌, Bool, true, false, not, Option, none, some, Result, ok, err, List, [], ◌==◌, leb,
}
use tls.Outside.{Outside}
use tls.Outside.Chunks.{Chunks}
use tls.Error.{Error, staged as staged_error, retained}
use tls.State.Source

module _ ⦃o : Outside⦄ where
  open o use {Chunk, chunk_slice}

  pub record Retained : Type 0 where
    pub staged : Option Chunk
    pub plain : Option Source.Cursor
    pub remaining : ℕ

module _ ⦃o : Outside⦄ ⦃k : Chunks⦄ where
  open o use {Chunk, ConsumeError, chunk_slice, check}
  open k use {
    ChunkHead, is_empty, remaining as chunk_remaining, chunk_head, try_consume as chunk_try_consume,
    consume_max as chunk_consume_max, commit as chunk_commit, try_add, len_prefix, head_slice,
  }

  pub data HeadBacking : Type 0 where
    staged_head : ChunkHead → HeadBacking
    plain_head : Source.Head → HeadBacking

  -- `left` is the `remaining` of the stream.
  pub record Current : Type 0 where
    pub backing : HeadBacking
    pub left : ℕ

  -- Current::staged and Current::plain.
  abbrev staged_current : Chunk → ℕ → Current
  staged_current staged left = record { backing = staged_head (chunk_head staged); left = left }

  abbrev plain_current : Source.Head → ℕ → Current
  plain_current h left = record { backing = plain_head h; left = left }

  -- Option::filter with `!is_empty()`.
  unfoldable pub non_empty : Option Chunk → Option Chunk
  non_empty none = none
  non_empty (some chunk) = elim (is_empty chunk) [ true ↦ none | false ↦ some chunk ]

  pub staged_len : Option Chunk → ℕ
  staged_len none = 0
  staged_len (some chunk) = chunk_remaining chunk

  -- Retained::try_new.
  pub try_new : Option Chunk → Source.Cursor → Result Error (Option Retained)
  unfolding non_empty staged_len
  try_new staged plain =
      let staged' = non_empty staged in
      let body = plain.len in
      elim (try_add 0 (staged_len staged')) [
        | err cause ↦ err (staged_error cause)
        | ok stage ↦ elim (try_add stage body) [
          | err cause ↦ err (retained cause)
          | ok len ↦ elim (len == 0) [
            | true ↦ ok none
            | false ↦ ok (
                some (record {
                  staged = staged';
                  plain = elim (body == 0) [ true ↦ none | false ↦ some plain ];
                  remaining = len;
                }))
          ]
        ]
      ]

  -- Retained::as_ref.
  pub as_ref : Retained → Option (List ℕ)
  unfolding non_empty
  as_ref r = elim (non_empty r.staged) [
    | some chunk ↦ some (chunk_slice chunk)
    | none ↦ elim r.plain [ none ↦ some [] | some plain ↦ Source.as_slice plain ]
  ]

  -- Retained::next.
  pub next : Retained → Option Current
  unfolding non_empty
  next r = elim (non_empty r.staged) [
    | some chunk ↦ some (staged_current chunk r.remaining)
    | none ↦ elim r.plain [
      | none ↦ none
      | some plain ↦ elim (Source.head plain) [
        | none ↦ none
        | some h ↦ some (plain_current h r.remaining)
      ]
    ]
  ]

  -- Current::try_consume.
  pub current_try_consume : HeadBacking → ℕ → Result ConsumeError (Unit {0}) × HeadBacking
  current_try_consume (staged_head h) amount =
      let (r, h') = chunk_try_consume h amount in (r, staged_head h')
  current_try_consume (plain_head h) amount =
      let (r, h') = Source.try_consume h amount in (r, plain_head h')

  -- Current::consume_max.
  pub current_consume_max : HeadBacking → ℕ → ℕ × HeadBacking
  current_consume_max (staged_head h) max =
      let (amount, h') = chunk_consume_max h max in (amount, staged_head h')
  current_consume_max (plain_head h) max =
      let (amount, h') = Source.consume_max h max in (amount, plain_head h')

  -- The end of Current::commit.
  pub settle_len : Retained → ℕ → ℕ → Option (ℕ × Retained)
  settle_len r left consumed = elim (leb consumed left) [
    | false ↦ none
    | true ↦ some (consumed, record r { remaining = len_prefix (left - consumed) left })
  ]

  -- Current::commit.
  pub commit : Retained → HeadBacking → ℕ → Option (ℕ × Retained)
  unfolding settle_len
  commit r (staged_head h) left =
      let (consumed, chunk) = chunk_commit h in
      settle_len (record r { staged = some chunk }) left consumed
  commit r (plain_head h) left = elim (Source.commit h) [
    | none ↦ none
    | some (consumed, plain) ↦ settle_len (record r { plain = some plain }) left consumed
  ]

  -- Retained::try_consume.
  pub try_consume : Retained → ℕ → Option (Result ConsumeError (Unit {0}) × Retained)
  unfolding next commit
  try_consume r amount = elim (next r) [
    | none ↦ some (check amount 0, r)
    | some current ↦
        let (result, backing) = current_try_consume current.backing amount in
        elim result [
          | err cause ↦ some (err cause, r)
          | ok _ ↦ elim (commit r backing current.left) [
            | none ↦ none
            | some (_, r') ↦ some (ok tt, r')
          ]
        ]
  ]

  -- Retained::consume_max.
  pub consume_max : Retained → ℕ → Option (ℕ × Retained)
  unfolding next commit
  consume_max r max = elim (next r) [
    | none ↦ some (0, r)
    | some current ↦
        let (amount, backing) = current_consume_max current.backing max in
        elim (commit r backing current.left) [ none ↦ none | some (_, r') ↦ some (amount, r') ]
  ]
