-- ===== src/Tls/Senders/Wire.antt =====
-- The ciphertext between rustls and the socket under the operations of the send path.
use tls.Base.{
  ℕ, ◌≡◌, refl, sym, ap, ◌∙◌, inl, inr, Bool-cases, Option-cases, Result-cases, Bool, true, is_nil,
  not, ◌&&◌, some, List, ◌++◌, drop, arith, append_assoc, Extends, Extends-refl, Extends-trans,
  Extends-of_eq,
}
use tls.Outside.{Outside}
use tls.Outside.Laws.{CursorLaws, PoolLaws, WriteLaws}
use tls.Outside.Progress.{Progress}
use tls.State.Moved.{drain-Moved}
use tls.Tls.{
  Connection, SendState, try_buffer, free_empty, as_slice, consume_max, drain, seal_close,
  emit_into,
}
use tls.Tls.Drain.{drain-native, drain-cursor}
use tls.Tls.Buffer.{
  as_slice-try_buffer, as_slice-free_empty, as_slice-drop_empty, as_slice-consume_max,
  as_slice-put_back, put_back-conn,
}
use tls.Tls.Link.{Link, put_back}
use tls.Outside.Vectored.{Vectored}
use tls.Tls.Encrypt.{Attempts, one}
use tls.Tls.Encrypt.Vectored.{many}
use tls.Tls.Encrypt.Vectored.Gathered.{many-Queues}
use tls.Tls.Encrypt.Accepts.{Queues, one-Queues}
use tls.Tls.Encrypt.Wire.{wire, seal-Extends}
use tls.Tls.Senders.{
  refill, prepare_into, prepare_with, prepare, prepare_many, after_send, resume, settle, flush,
  prepare_drain, close,
}

module _ ⦃o : Outside⦄ (cursors : CursorLaws) (pools : PoolLaws) (writes : WriteLaws) where
  open o use {Cursor, Native, as_slice as cursor_slice}
  open writes use {queued}

  -- The ciphertext between rustls and the socket, oldest first.
  abbrev pub link_wire : Link → List ℕ
  link_wire l = as_slice l.store ++ queued l.conn.native

  drain-wire :
      (conn : Connection) (out : Cursor)
      → cursor_slice (drain conn out).2 ++ queued (drain conn out).1.native
        ≡ cursor_slice out ++ queued conn.native
  drain-wire conn out =
      rw (drain-native, drain-cursor) (drain-Moved cursors writes conn.native out).conserved

  refill-wire :
      (conn : Connection) (out : Cursor)
      → cursor_slice (refill conn out).2 ++ queued (refill conn out).1.native
        ≡ cursor_slice out ++ queued conn.native
  unfolding refill
  refill-wire conn out = ground (arith, drain-wire conn out)

  held-slice : (s : SendState) (c : Cursor) → s.buffer ≡ some c → as_slice s ≡ cursor_slice c
  unfolding as_slice
  held-slice s c e = ground arith

  -- A flush moves records to the send buffer: of the ciphertext on its way to the socket none is
  -- lost, repeated or reordered, also when it fails.
  pub flush-wire : (l : Link) → link_wire (flush l).1 ≡ link_wire l
  unfolding flush
  flush-wire l = grind (
    arith,
    as_slice-put_back cursors,
    put_back-conn,
    drain-wire,
    held-slice,
    as_slice-try_buffer pools l.store l.pool,
  )

  freed-slice :
      (c : Cursor) (p : o.Pool)
      → as_slice (free_empty (record { buffer = some c }) p).1 ≡ cursor_slice c
  freed-slice c p = as_slice-free_empty cursors (record { buffer = some c }) p ∙ held-slice _ c refl

  -- What the socket has taken leaves the front of the wire, and nothing else changes it.
  pub after_send-wire :
      (l : Link) (sent : ℕ)
      → link_wire (after_send l sent).1 ≡ drop sent (as_slice l.store) ++ queued l.conn.native
  unfolding after_send
  after_send-wire l sent =
      rw (← as_slice-consume_max cursors l.store sent)
        (grind (arith, freed-slice, drain-wire, held-slice))

  pub resume-wire : (l : Link) (draining : Bool) → link_wire (resume l draining).2 ≡ link_wire l
  unfolding resume
  resume-wire l draining =
      grind (arith, held-slice, drain-wire, as_slice-try_buffer pools l.store l.pool)

  -- Settling a send, with a drain or without, takes from the front of the wire what the socket has
  -- taken, and keeps the rest in order.
  pub settle-wire :
      (l : Link) (sent : ℕ) (draining : Bool)
      → link_wire (settle l sent draining).2 ≡ drop sent (as_slice l.store) ++ queued l.conn.native
  unfolding settle
  settle-wire l sent draining = rw (← as_slice-consume_max cursors l.store sent) (
      ground (
        arith,
        resume-wire (record l { store = consume_max l.store sent }) draining,
        as_slice-free_empty cursors
            (resume (record l { store = consume_max l.store sent }) draining).2.store
            (resume (record l { store = consume_max l.store sent }) draining).2.pool,
      ))

  -- Preparing a drain keeps the ciphertext on its way to the socket as it is.
  pub prepare_drain-wire :
      (l : Link) (draining : Bool) → link_wire (prepare_drain l draining).2 ≡ link_wire l
  unfolding prepare_drain
  prepare_drain-wire l draining = ground (
    arith,
    resume-wire l draining,
    as_slice-drop_empty cursors (resume l draining).2.store (resume l draining).2.pool,
  )

  emitted-Extends :
      (conn : Connection) (out : Cursor)
      → Extends
          (wire writes conn.native out)
          (wire writes (emit_into conn out).1.native (emit_into conn out).2)
  unfolding emit_into
  emitted-Extends conn out = Extends-of_eq (drain-Moved cursors writes conn.native out).conserved

  notified-Extends :
      (n : Native) (out : Cursor)
      → Extends (wire writes n out) (wire writes (o.send_close_notify n) out)
  notified-Extends n out =
      let (t, e) = writes.send_close_notify-queued n in
      (t, ap (◌++◌ (cursor_slice out)) e ∙ sym (append_assoc (cursor_slice out) (queued n) t))

  sealed-Extends :
      (conn : Connection) (out : Cursor)
      → Extends
          (wire writes conn.native out)
          (wire writes (seal_close conn out).1.native (seal_close conn out).2)
  unfolding seal_close
  sealed-Extends conn out = elim (Bool-cases (not conn.local_closed && not conn.failed)) [
    | inr before ↦ rw (before, seal_close) (emitted-Extends conn out)
    | inl first ↦
        let notified : Connection = record conn {
          local_closed = true;
          native = o.send_close_notify conn.native;
        } in
        rw (first, seal_close)
          (Extends-trans _ _ _ (notified-Extends conn.native out) (emitted-Extends notified out))
  ]

  put_back-wire :
      (l : Link) (conn : Connection) (c : Cursor)
      → link_wire (put_back l conn c) ≡ wire writes conn.native c
  put_back-wire l conn c = rw (as_slice-put_back cursors l conn c, put_back-conn) refl

  try_buffer-wire :
      (l : Link) (c : Cursor)
      → (try_buffer l.store l.pool).0.buffer ≡ some c
      → wire writes l.conn.native c ≡ link_wire l
  try_buffer-wire l c e =
      ap (λ xs. xs ++ queued l.conn.native)
        (sym (held-slice _ c e) ∙ as_slice-try_buffer pools l.store l.pool)

  put_back-Extends :
      (l m : Link) (conn : Connection) (out c : Cursor)
      → (try_buffer l.store l.pool).0.buffer ≡ some c
      → Extends (wire writes l.conn.native c) (wire writes conn.native out)
      → Extends (link_wire l) (link_wire (put_back m conn out))
  put_back-Extends l m conn out c e h = rw (put_back-wire m conn out, ← try_buffer-wire l c e) h

  -- Closing only appends to the ciphertext on its way to the socket, also when it fails.
  pub close-Extends : (l : Link) → Extends (link_wire l) (link_wire (close l).1)
  unfolding close
  close-Extends l = elim (Option-cases (try_buffer l.store l.pool).0.buffer) [
    | inl e ↦ rw (e, close) (Extends-of_eq (rw (as_slice-try_buffer pools) refl))
    | inr (c, e) ↦ elim (Result-cases (seal_close l.conn c).0) [
      | inl (_, f) ↦ rw (e, f, close) (put_back-Extends l _ _ _ c e (sealed-Extends l.conn c))
      | inr (_, f) ↦ rw (e, f, close) (put_back-Extends l _ _ _ c e (sealed-Extends l.conn c))
    ]
  ]

  module _ (a : Attempts) (queues : Queues a writes) where
    open a use {Left, nothing_left}

    prepare_into-Extends :
        (l : Link) (c : Cursor) (plain : Left)
        → Extends (wire writes l.conn.native c) (link_wire (prepare_into a l c plain).1)
    unfolding prepare_into
    prepare_into-Extends l c plain =
        let (cause, conn, out) = drain l.conn c in
        let moved = Extends-of_eq (drain-wire l.conn c) in
        elim (Option-cases (drain l.conn c).0) [
          | inr (_, e) ↦ rw (e, prepare_into, put_back-wire) moved
          | inl e ↦ elim (Bool-cases (o.wants_write conn.native)) [
            | inl more ↦ rw (e, more, prepare_into, put_back-wire) moved
            | inr none_left ↦
                rw (e, none_left, prepare_into, put_back-wire)
                  (Extends-trans _ _ _ moved (seal-Extends cursors writes a queues conn out plain))
          ]
        ]

    pub prepare_with-Extends :
        (l : Link) (plain : Left) → Extends (link_wire l) (link_wire (prepare_with a l plain).1)
    unfolding prepare_with
    prepare_with-Extends l plain =
        elim (Bool-cases (
          nothing_left plain && (is_nil (as_slice l.store) && not (o.wants_write l.conn.native)))) [
            | inl idle ↦ rw (idle, prepare_with) (Extends-refl _)
            | inr busy ↦ elim (Option-cases (try_buffer l.store l.pool).0.buffer) [
              | inl e ↦
                  rw (busy, e, prepare_with) (Extends-of_eq (rw (as_slice-try_buffer pools) refl))
              | inr (c, e) ↦
                  rw (busy, e, prepare_with, ← try_buffer-wire l c e)
                    (prepare_into-Extends _ c plain)
            ]
          ]

  -- Preparing a send only appends to the ciphertext on its way to the socket.
  pub prepare-Extends :
      ⦃d : Progress⦄ (l : Link) (plain : d.Plain)
      → Extends (link_wire l) (link_wire (prepare l plain).1)
  unfolding prepare
  prepare-Extends l plain = prepare_with-Extends one (one-Queues writes) l plain

  pub prepare_many-Extends :
      ⦃v : Vectored⦄ (l : Link) (plain : v.Many)
      → Extends (link_wire l) (link_wire (prepare_many l plain).1)
  unfolding prepare_many
  prepare_many-Extends l plain = prepare_with-Extends many (many-Queues writes) l plain
