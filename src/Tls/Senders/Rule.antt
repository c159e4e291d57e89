-- ===== src/Tls/Senders/Rule.antt =====
-- A rule for the send path: what draining rustls, a failure and the close notification keep of a
-- connection, every operation keeps, `prepare` and `prepare_many` if the encryption does.
use tls.Base.{
  ℕ, Bool, inl, inr, Bool-cases, Option-cases, Result-cases, is_nil, ◌≡◌, sym, subst, true, not,
  ◌&&◌, arith,
}
use tls.Outside.{Outside}
use tls.Tls.{Connection, drain, emit_into, seal_close, try_buffer, as_slice, consume_max}
use tls.Tls.Buffer.{put_back-conn}
use tls.Tls.Link.{Link}
use tls.Tls.Encrypt.{Attempts, seal}
use tls.Tls.Senders.{
  prepare_into, prepare_with, refill, after_send, resume, settle, flush, prepare_drain, close,
}
use tls.State

module _ ⦃o : Outside⦄ where
  pub record SendKeeps (P : Connection → Type 0) : Type 0 where
    pub on_drain :
        (conn : Connection) (out : o.Cursor)
        → P conn
        → P (record conn { native = (State.drain conn.native out).1 })
    pub on_fail : (conn : Connection) → P conn → P (record conn { failed = true })
    pub on_notify :
        (conn : Connection)
        → P conn
        → P (record conn { local_closed = true; native = o.send_close_notify conn.native })

  settle-conn :
      (l : Link) (sent : ℕ) (draining : Bool)
      → (settle l sent draining).2.conn
        ≡ (resume (record l { store = consume_max l.store sent }) draining).2.conn
  unfolding settle
  settle-conn l sent draining = ground arith

  prepare_drain-conn :
      (l : Link) (draining : Bool) → (prepare_drain l draining).2.conn ≡ (resume l draining).2.conn
  unfolding prepare_drain
  prepare_drain-conn l draining = ground arith

module _ ⦃o : Outside⦄ (P : Connection → Type 0) (keeps : SendKeeps P) where
  open o use {Cursor, wants_write, is_empty}

  pub emit_into-Kept : (conn : Connection) (out : Cursor) → P conn → P (emit_into conn out).1
  unfolding emit_into
  emit_into-Kept conn out h = keeps.on_drain conn out h

  pub drain-Kept : (conn : Connection) (out : Cursor) → P conn → P (drain conn out).1
  unfolding drain
  drain-Kept conn out h =
      let h' = emit_into-Kept conn out h in
      elim (Result-cases (emit_into conn out).0) [
        | inl (_, e) ↦ rw (e, drain) h'
        | inr (_, e) ↦ rw (e, drain) (keeps.on_fail (emit_into conn out).1 h')
      ]

  refill-Kept : (conn : Connection) (out : Cursor) → P conn → P (refill conn out).1
  unfolding refill
  refill-Kept conn out h = elim (Bool-cases (is_empty out)) [
    | inl e ↦ rw (e, refill) (drain-Kept conn out h)
    | inr e ↦ rw (e, refill) h
  ]

  pub after_send-Kept : (l : Link) (sent : ℕ) → P l.conn → P (after_send l sent).1.conn
  unfolding after_send
  after_send-Kept l sent h = elim (Option-cases (consume_max l.store sent).buffer) [
    | inl e ↦ rw (e, after_send) h
    | inr (c, e) ↦ rw (e, after_send) (refill-Kept l.conn c h)
  ]

  resume-Kept : (l : Link) (draining : Bool) → P l.conn → P (resume l draining).2.conn
  unfolding resume
  resume-Kept l draining h = elim (Bool-cases (draining && wants_write l.conn.native)) [
    | inr e ↦ rw (e, resume) h
    | inl e ↦ elim (Option-cases (try_buffer l.store l.pool).0.buffer) [
      | inl f ↦ rw (e, f, resume) h
      | inr (c, f) ↦ rw (e, f, resume) (refill-Kept l.conn c h)
    ]
  ]

  pub settle-Kept :
      (l : Link) (sent : ℕ) (draining : Bool) → P l.conn → P (settle l sent draining).2.conn
  settle-Kept l sent draining h =
      subst P (sym (settle-conn l sent draining))
        (resume-Kept (record l { store = consume_max l.store sent }) draining h)

  pub flush-Kept : (l : Link) → P l.conn → P (flush l).1.conn
  unfolding flush
  flush-Kept l h =
      elim (Bool-cases (is_nil (as_slice l.store) && not (wants_write l.conn.native))) [
        | inl idle ↦ rw (idle, flush) h
        | inr busy ↦ elim (Option-cases (try_buffer l.store l.pool).0.buffer) [
          | inl e ↦ rw (busy, e, flush) h
          | inr (c, e) ↦ rw (busy, e, flush, put_back-conn) (drain-Kept l.conn c h)
        ]
      ]

  pub prepare_drain-Kept :
      (l : Link) (draining : Bool) → P l.conn → P (prepare_drain l draining).2.conn
  prepare_drain-Kept l draining h =
      subst P (sym (prepare_drain-conn l draining)) (resume-Kept l draining h)

  seal_close-Kept : (conn : Connection) (out : Cursor) → P conn → P (seal_close conn out).1
  unfolding seal_close
  seal_close-Kept conn out h = elim (Bool-cases (not conn.local_closed && not conn.failed)) [
    | inr before ↦ rw (before, seal_close) (emit_into-Kept conn out h)
    | inl first ↦ rw (first, seal_close) (emit_into-Kept _ out (keeps.on_notify conn h))
  ]

  pub close-Kept : (l : Link) → P l.conn → P (close l).1.conn
  unfolding close
  close-Kept l h = elim (Option-cases (try_buffer l.store l.pool).0.buffer) [
    | inl e ↦ rw (e, close) h
    | inr (c, e) ↦ elim (Result-cases (seal_close l.conn c).0) [
      | inl (_, f) ↦ rw (e, f, close, put_back-conn) (seal_close-Kept l.conn c h)
      | inr (_, f) ↦ rw (e, f, close, put_back-conn) (seal_close-Kept l.conn c h)
    ]
  ]

  module _ (a : Attempts)
      (on_seal : (conn : Connection) (out : Cursor) (plain : a.Left)
        → P conn
        → P (seal a conn out plain).1) where
    prepare_into-Kept :
        (l : Link) (c : Cursor) (plain : a.Left) → P l.conn → P (prepare_into a l c plain).1.conn
    unfolding prepare_into
    prepare_into-Kept l c plain h =
        let (_, conn, out) = drain l.conn c in
        let h' : P conn = drain-Kept l.conn c h in
        elim (Option-cases (drain l.conn c).0) [
          | inr (cause, e) ↦ rw (e, prepare_into, put_back-conn) h'
          | inl e ↦ elim (Bool-cases (wants_write conn.native)) [
            | inl f ↦ rw (e, f, prepare_into, put_back-conn) h'
            | inr f ↦ rw (e, f, prepare_into, put_back-conn) (on_seal conn out plain h')
          ]
        ]

    pub prepare_with-Kept :
        (l : Link) (plain : a.Left) → P l.conn → P (prepare_with a l plain).1.conn
    unfolding prepare_with
    prepare_with-Kept l plain h =
        elim (Bool-cases (
          a.nothing_left plain && (is_nil (as_slice l.store) && not (wants_write l.conn.native)))) [
            | inl idle ↦ rw (idle, prepare_with) h
            | inr busy ↦
                let (store, pool) = try_buffer l.store l.pool in
                elim (Option-cases store.buffer) [
                  | inl e ↦ rw (busy, e, prepare_with) h
                  | inr (c, e) ↦
                      rw (busy, e, prepare_with)
                        (prepare_into-Kept (record l { store = store; pool = pool }) c plain h)
                ]
          ]
