-- ===== src/Tls.antt =====
-- src/tls/mod.rs: one TLS connection and its send buffer. A pool of send buffers is shared by the
-- connections of a worker, so it is an argument and a result. The session lease and the marker
-- fields of Connection carry no data and are left out.
pub mod Drain
pub mod Buffer
pub mod Link
pub mod Encrypt
pub mod Senders
pub mod Protocol
pub mod Roles
pub mod Receive
pub mod Waiters
pub mod Policy
pub mod Endpoint
pub mod Session
use tls.Base.{ℕ, Bool, true, false, not, ◌&&◌, Option, none, some, Result, ok, err, List, []}
use tls.Outside.{Outside}
use tls.Error.{Error, io, from_io, buffer_unavailable, invalid_buffer_progress}
use tls.State

-- send::Availability.
pub data Availability : Type 0 where
  released unchanged : Availability

module _ ⦃o : Outside⦄ where
  open o use {
    Cursor, Pool, Native, as_slice as cursor_slice, is_empty, consume_max as cursor_consume_max,
    view, give_back, wants_write, is_handshaking, send_close_notify, read_tls, fill_buf,
  }

  pub record Connection : Type 0 where
    pub native : Native
    pub peer_closed : Bool
    pub local_closed : Bool
    pub failed : Bool

  pub record SendState : Type 0 where
    pub buffer : Option Cursor

  -- What dropping a buffer does to its pool.
  unfoldable pub dropped : Option Cursor → Pool → Pool
  dropped none pool = pool
  dropped (some cursor) pool = give_back cursor pool

  -- Connection::can_write.
  pub can_write : Connection → Bool
  can_write conn = not conn.failed && (not conn.local_closed && not (is_handshaking conn.native))

  -- Connection::emit_into.
  pub emit_into : Connection → Cursor → Result Error (Unit {0}) × Connection × Cursor
  emit_into conn out =
      let (r, native, out') = State.drain conn.native out in
      (r, record conn { native = native }, out')

  -- Connection::drain.
  pub drain : Connection → Cursor → Option Error × Connection × Cursor
  unfolding emit_into
  drain conn out =
      let (r, conn', out') = emit_into conn out in
      elim r [
        | ok _ ↦ (none, conn', out')
        | err cause ↦ (some cause, record conn' { failed = true }, out')
      ]

  -- Connection::peer_eof.
  pub peer_eof : Connection → Result Error (Unit {0}) × Connection
  peer_eof conn =
      let (r, native) = read_tls conn.native [] in
      elim r [
        | err cause ↦ (err (from_io cause), record conn { native = native })
        | ok _ ↦
            let (plain, native') = fill_buf native in
            let conn' : Connection = record conn { native = native' } in
            elim plain [
              | ok [] ↦ (ok tt, conn')
              | ok _ ↦ (err invalid_buffer_progress, conn')
              | err cause ↦ (err (io cause), record conn' { failed = true })
            ]
      ]

  -- Connection::seal_close.
  pub seal_close : Connection → Cursor → Result Error (Unit {0}) × Connection × Cursor
  unfolding emit_into
  seal_close conn out = elim (not conn.local_closed && not conn.failed) [
    | true ↦
        emit_into (record conn { local_closed = true; native = send_close_notify conn.native }) out
    | false ↦ emit_into conn out
  ]

  -- SendState::reserve, with the loan's cursor first.
  unfoldable pub reserve : SendState → Pool → Option (Cursor × SendState × Pool)
  reserve store pool = elim store.buffer [
    | some cursor ↦ some (cursor, record store { buffer = none }, pool)
    | none ↦ elim (view pool) [
      | none ↦ none
      | some (cursor, pool') ↦ some (cursor, record store { buffer = none }, pool')
    ]
  ]

  -- Vacant::restore, which Buffered::complete and a dropped loan call.
  unfoldable pub restore : SendState → Cursor → Pool → Availability × SendState × Pool
  unfolding dropped
  restore store cursor pool = elim (is_empty cursor) [
    | true ↦ (released, store, give_back cursor pool)
    | false ↦ (unchanged, record store { buffer = some cursor }, dropped store.buffer pool)
  ]

  -- SendState::consume_max, when the socket has taken `max` bytes.
  pub consume_max : SendState → ℕ → SendState
  consume_max store max = elim store.buffer [
    | some cursor ↦ record store { buffer = some (cursor_consume_max cursor max) }
    | none ↦ store
  ]

  -- SendState::try_buffer: its result is the `buffer` of the state after it.
  pub try_buffer : SendState → Pool → SendState × Pool
  try_buffer store pool = elim store.buffer [
    | some _ ↦ (store, pool)
    | none ↦ elim (view pool) [
      | none ↦ (store, pool)
      | some (cursor, pool') ↦ (record store { buffer = some cursor }, pool')
    ]
  ]

  -- SendState::free_empty and drop_empty.
  pub free_empty : SendState → Pool → Availability × SendState × Pool
  free_empty store pool = elim store.buffer [
    | none ↦ (unchanged, store, pool)
    | some cursor ↦ elim (is_empty cursor) [
      | true ↦ (released, record store { buffer = none }, give_back cursor pool)
      | false ↦ (unchanged, store, pool)
    ]
  ]

  pub drop_empty : SendState → Pool → SendState × Pool
  unfolding free_empty
  drop_empty store pool = let (_, store', pool') = free_empty store pool in (store', pool')

  -- send::Store::as_slice and release for SendState.
  unfoldable pub as_slice : SendState → List ℕ
  as_slice store = elim store.buffer [ none ↦ [] | some cursor ↦ cursor_slice cursor ]

  pub release : SendState → Pool → Availability × Pool
  unfolding dropped
  release store pool = elim store.buffer [
    | some cursor ↦ (released, give_back cursor pool)
    | none ↦ (unchanged, pool)
  ]

  -- Connection::new: an error drops the connection and its buffer.
  unfoldable pub new : Native → SendState → Pool → Result Error (Connection × SendState) × Pool
  unfolding emit_into drop_empty dropped
  new native send pool =
      let conn : Connection = record {
        native = native;
        peer_closed = false;
        local_closed = false;
        failed = false;
      } in
      elim send.buffer [
        | some out ↦
            let (r, conn', out') = emit_into conn out in
            elim r [
              | err cause ↦ (err cause, give_back out' pool)
              | ok _ ↦
                  let (send', pool') = drop_empty (record send { buffer = some out' }) pool in
                  (ok (conn', send'), pool')
            ]
        | none ↦ elim (wants_write native) [
          | true ↦ (err buffer_unavailable, pool)
          | false ↦ let (send', pool') = drop_empty send pool in (ok (conn, send'), pool')
        ]
      ]
