-- ===== src/Tls/Endpoint/Open/Unavailable.antt =====
-- Why Runtime::open says that it is unavailable.
use tls.Base.{
  ◌≡◌, ◌⊎◌, refl, subst, inl, inr, Bool-cases, Option-cases, Result-cases, Bool, true, false, ◌&&◌,
  Option, none, some, ok, arith,
}
use tls.Outside.{Outside}
use tls.State.Causes.{lacks_buffer, drain-lacks}
use tls.Tls.{Connection, SendState, new, emit_into}
use tls.Tls.Endpoint.Open.{
  Roles, Disposition, Opening, is_unavailable, has_failed, is_opened, Runtime, connect, publish,
  with_session, open_connection,
}

module _ ⦃o : Outside⦄ where
  new-lacks_full :
      (native : o.Native) (store : SendState) (pool : o.Pool) (c : o.Cursor)
      → store.buffer ≡ some c
      → lacks_buffer (new native store pool).0 ≡ false
  unfolding new emit_into
  new-lacks_full native store pool c e =
      let conn : Connection = record {
        native = native;
        peer_closed = false;
        local_closed = false;
        failed = false;
      } in
      elim (Result-cases (emit_into conn c).0) [
        | inl (_, f) ↦ rw (e, f, new) refl
        | inr (cause, f) ↦
            rw (e, f, new) (subst (λ x. lacks_buffer x ≡ false) f (drain-lacks native c))
      ]

  -- A connection that has a buffer, or nothing to send, is not refused for the lack of a buffer.
  pub new-lacks :
      (native : o.Native) (store : SendState) (pool : o.Pool)
      → ((c : o.Cursor) × (store.buffer ≡ some c)) ⊎ (o.wants_write native ≡ false)
      → lacks_buffer (new native store pool).0 ≡ false
  unfolding new emit_into
  new-lacks native store pool (inl (c, e)) = new-lacks_full native store pool c e
  new-lacks native store pool (inr e) = elim (Option-cases store.buffer) [
    | inr (c, f) ↦ new-lacks_full native store pool c f
    | inl f ↦ rw (f, e, new) refl
  ]

module _ ⦃o : Outside⦄ ⦃r : Roles⦄ where
  open r use {Config, take_session, send_on_open, open_role}

  -- What a role promises: opening does not fail for the lack of a buffer, and one that does not send
  -- first has nothing to send when it is opened.
  pub record RoleLaws : Type 0 where
    pub open_role-lacks : (config : Config) → lacks_buffer (open_role config) ≡ false
    pub open_role-quiet :
        {config : Config} {native : o.Native}
        → send_on_open ≡ false
        → open_role config ≡ ok native
        → o.wants_write native ≡ false

  abbrev pub is_none {ℓ} : {A : Type ℓ} → Option A → Bool
  is_none none = true
  is_none (some a) = false

  -- Whether an opening is unavailable.
  abbrev pub unavailable : {T : Type 0} → Opening T → Bool
  unavailable is_unavailable = true
  unavailable (has_failed cause) = false
  unavailable (is_opened t) = false

  module _ {T : Type 0} (laws : RoleLaws) (consume : Connection → SendState → Disposition T) where
    publish-available :
        (run : Runtime) (conn : Connection) (store : SendState)
        → unavailable (publish consume run conn store).0 ≡ false
    unfolding publish
    publish-available run conn store = ground arith

    connect-lacks :
        (config : Config) (b : Option o.Cursor) (pool : o.Pool)
        → ((c : o.Cursor) × (b ≡ some c)) ⊎ (send_on_open ≡ false)
        → lacks_buffer (connect config b pool).0 ≡ false
    unfolding connect
    connect-lacks config b pool h = elim (Result-cases (open_role config)) [
      | inr (cause, e) ↦ ground (arith, laws.open_role-lacks config)
      | inl (native, e) ↦
          let ready : ((c : o.Cursor) × (b ≡ some c)) ⊎ (o.wants_write native ≡ false) = elim h [
            | inl have ↦ inl have
            | inr late ↦ inr (laws.open_role-quiet late e)
          ] in
          rw (e, connect) (new-lacks native (record { buffer = b }) pool ready)
    ]

    with_session-available :
        (run : Runtime) (b : Option o.Cursor)
        → ((c : o.Cursor) × (b ≡ some c)) ⊎ (send_on_open ≡ false)
        → unavailable (with_session consume run b).0 ≡ false
    unfolding with_session
    with_session-available run b h =
        let full = connect-lacks run.role b run.pool h in ground (arith, full)

    -- An opening is unavailable exactly when nothing is cached and there is no session, or there is
    -- one and the role sends first but there is no send slot: it fails otherwise, or is opened.
    pub open_connection-unavailable :
        (run : Runtime)
        → unavailable (open_connection consume run).0 ≡ elim run.pending [
          | some parts ↦ false
          | none ↦ elim (take_session run.sessions) [
            | none ↦ true
            | some rest ↦ send_on_open && is_none (o.view run.pool)
          ]
        ]
    unfolding open_connection
    open_connection-unavailable run = elim (Option-cases run.pending) [
      | inr ((conn, store), e) ↦
          rw (e, open_connection) (publish-available (record run { pending = none }) conn store)
      | inl e ↦ elim (Option-cases (take_session run.sessions)) [
        | inl f ↦ rw (e, f, open_connection) refl
        | inr (rest, f) ↦
            let run' : Runtime = record run { sessions = rest } in
            elim (Bool-cases send_on_open) [
              | inr g ↦ rw (e, f, g, open_connection) (with_session-available run' none (inr g))
              | inl g ↦ elim (Option-cases (o.view run.pool)) [
                | inl k ↦ rw (e, f, g, k, open_connection) refl
                | inr ((cursor, pool), k) ↦
                    rw (e, f, g, k, open_connection)
                      (with_session-available (record run' { pool = pool }) (some cursor)
                        (inl (cursor, refl)))
              ]
            ]
      ]
    ]
