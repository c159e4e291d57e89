-- ===== src/Tls/Senders.antt =====
-- src/tls/senders.rs, and `close` of src/tls/protocol.rs: the operations of the send path.
pub mod Slots
pub mod Wire
pub mod Plaintext
pub mod Failure
pub mod Tidy
pub mod Pump
pub mod Rule
pub mod Silent
pub mod Fed
pub mod Accepted
use tls.Base.{ℕ, Bool, true, false, not, ◌&&◌, Option, none, some, ok, err, is_nil}
use tls.Outside.{Outside}
use tls.Outside.Progress.{Progress}
use tls.Error.{Error}
use tls.Tls.{
  Connection, SendState, try_buffer, free_empty, drop_empty, as_slice, consume_max, drain,
  seal_close,
}
use tls.Tls.Link.{
  Prepared, Transition, Processed, output, terminal, map_processed, Link, wait, idle, finish,
  no_release, put_back,
}
use tls.Outside.Vectored.{Vectored}
use tls.Tls.Encrypt.{Attempts, seal, one}
use tls.Tls.Encrypt.Vectored.{many}

-- Poll.
pub data Poll : Type 0 where
  is_ready is_pending : Poll

-- A result with the cause of a failure, if there was one.
module _ ⦃o : Outside⦄ where
  abbrev pub report : {A : Type 0} → A → Option Error → Processed A
  report a none = output a
  report a (some cause) = terminal a cause

module _ ⦃o : Outside⦄ where
  open o use {Cursor, is_empty, wants_write}

  -- Connection::refill.
  pub refill : Connection → Cursor → Option Error × Connection × Cursor
  refill conn out = elim (is_empty out) [ true ↦ drain conn out | false ↦ (none, conn, out) ]

  -- `prepare` and `prepare_many`, which differ in what they encrypt with.
  module _ (a : Attempts) where
    open a use {Left, nothing_left}

    -- The part of `prepare` that has a buffer.
    pub prepare_into : Link → Cursor → Left → Processed Prepared × Link × Left
    prepare_into l egress plain =
        let (cause, conn, egress') = drain l.conn egress in
        elim cause [
          | some cause ↦ (terminal (finish true) cause, put_back l conn egress', plain)
          | none ↦ elim (wants_write conn.native) [
            | true ↦ (output (finish conn.failed), put_back l conn egress', plain)
            | false ↦
                let (sealed, conn', egress'', plain') = seal a conn egress' plain in
                (map_processed (λ _. finish conn'.failed) sealed, put_back l conn' egress'', plain')
          ]
        ]

    -- What it leaves of the plaintext is the plan's rest.
    pub prepare_with : Link → Left → Processed Prepared × Link × Left
    prepare_with l plain =
        elim (nothing_left plain
          && (is_nil (as_slice l.store) && not (wants_write l.conn.native))) [
            | true ↦ (output idle, l, plain)
            | false ↦
                let (store, pool) = try_buffer l.store l.pool in
                let l' : Link = record l { store = store; pool = pool } in
                elim store.buffer [
                  | none ↦ (output wait, l', plain)
                  | some egress ↦ prepare_into l' egress plain
                ]
          ]

  -- Connection::prepare.
  unfoldable pub prepare : ⦃d : Progress⦄ → Link → d.Plain → Processed Prepared × Link × d.Plain
  prepare l plain = prepare_with one l plain

  -- Connection::prepare_many.
  unfoldable pub prepare_many : ⦃v : Vectored⦄ → Link → v.Many → Processed Prepared × Link × v.Many
  prepare_many l plain = prepare_with many l plain

  -- Connection::after_send: the socket has taken `sent` bytes.
  pub after_send : Link → ℕ → Processed Transition × Link
  unfolding refill
  after_send l sent =
      let store = consume_max l.store sent in
      elim store.buffer [
        | none ↦ (output (no_release idle), record l { store = store })
        | some egress ↦
            let (cause, conn, egress') = refill l.conn egress in
            let (free, store', pool') = free_empty (record { buffer = some egress' }) l.pool in
            let l' : Link = record { conn = conn; store = store'; pool = pool' } in
            (report (record { prepared = finish conn.failed; free = free }) cause, l')
      ]

  -- Connection::resume. `draining` says that `end` is there, and the error is what it is told.
  pub resume : Link → Bool → Poll × Option Error × Link
  unfolding refill
  resume l draining = elim (draining && wants_write l.conn.native) [
    | false ↦ (is_ready, none, l)
    | true ↦
        let (store, pool) = try_buffer l.store l.pool in
        elim store.buffer [
          | none ↦ (is_pending, none, record l { store = store; pool = pool })
          | some egress ↦
              let (cause, conn, egress') = refill l.conn egress in
              (
                is_ready,
                cause,
                record { conn = conn; store = record { buffer = some egress' }; pool = pool },
              )
        ]
  ]

  -- Connection::settle.
  pub settle : Link → ℕ → Bool → Transition × Option Error × Link
  settle l sent draining =
      let (poll, cause, l') = resume (record l { store = consume_max l.store sent }) draining in
      elim poll [
        | is_pending ↦ (no_release (record wait { close_after = true }), cause, l')
        | is_ready ↦
            let (free, store, pool) = free_empty l'.store l'.pool in
            (
              record { prepared = finish true; free = free },
              cause,
              record l' { store = store; pool = pool },
            )
      ]

  -- Connection::flush.
  pub flush : Link → Processed Prepared × Link
  flush l = elim (is_nil (as_slice l.store) && not (wants_write l.conn.native)) [
    | true ↦ (output idle, l)
    | false ↦
        let (store, pool) = try_buffer l.store l.pool in
        let l' : Link = record l { store = store; pool = pool } in
        elim store.buffer [
          | none ↦ (output wait, l')
          | some egress ↦
              let (cause, conn, egress') = drain l.conn egress in
              (report (finish conn.failed) cause, put_back l' conn egress')
        ]
  ]

  -- Connection::prepare_drain.
  pub prepare_drain : Link → Bool → Prepared × Option Error × Link
  prepare_drain l draining =
      let (poll, cause, l') = resume l draining in
      elim poll [
        | is_pending ↦ (record wait { close_after = true }, cause, l')
        | is_ready ↦
            let (store, pool) = drop_empty l'.store l'.pool in
            (finish true, cause, record l' { store = store; pool = pool })
      ]

  -- Egress::close.
  pub close : Link → Processed Prepared × Link
  close l =
      let (store, pool) = try_buffer l.store l.pool in
      let l' : Link = record l { store = store; pool = pool } in
      elim store.buffer [
        | none ↦ (output wait, l')
        | some buffer ↦
            let (r, conn, buffer') = seal_close l.conn buffer in
            elim r [
              | err cause ↦ (terminal (finish true) cause, put_back l' conn buffer')
              | ok _ ↦ (output (finish false), put_back l' conn buffer')
            ]
      ]
