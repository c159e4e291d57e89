-- ===== src/Tls/Endpoint/Open/Loans.antt =====
-- An opening that does not succeed gives back what it took.
use tls.Base.{
  ℕ, suc, ◌+◌, ◌≡◌, refl, sym, ◌∙◌, inl, inr, Bool-cases, Option-cases, Result-cases, false, Option,
  none, some, Result, ok, err, arith,
}
use tls.Outside.{Outside}
use tls.Outside.Laws.{PoolLaws}
use tls.Error.{Error}
use tls.Tls.{Connection, SendState, new, dropped, emit_into}
use tls.Tls.Senders.Slots.{held, slots, drop_empty-slots}
use tls.Tls.Endpoint.Open.{
  Roles, Disposition, Opening, is_unavailable, has_failed, is_opened, Runtime, reconfigure, connect,
  publish, with_session, open_connection,
}

module _ ⦃o : Outside⦄ where
  open o use {Pool, Cursor, available, wants_write}

  -- The slots that a result leaves free or in the send buffer of its connection.
  abbrev pub result_slots : Result Error (Connection × SendState) × Pool → ℕ
  result_slots (ok (conn, store), pool) = slots store pool
  result_slots (err _, pool) = available pool

  dropped-slots :
      (pools : PoolLaws) (b : Option Cursor) (p : Pool)
      → available (dropped b p) ≡ held b + available p
  unfolding dropped
  dropped-slots pools none p = omega arith
  dropped-slots pools (some c) p = omega (arith, pools.give_back-available c p)

  -- A new connection keeps the count of the slots, and one that is refused gives its slot back.
  pub new-slots :
      (pools : PoolLaws) (native : o.Native) (store : SendState) (pool : Pool)
      → result_slots (new native store pool) ≡ slots store pool
  unfolding new
  new-slots pools native store pool =
      let conn : Connection = record {
        native = native;
        peer_closed = false;
        local_closed = false;
        failed = false;
      } in
      elim (Option-cases store.buffer) [
        | inl e ↦ elim (Bool-cases (wants_write native)) [
          | inl f ↦ rw (e, f, new) (omega arith)
          | inr f ↦ rw (e, f, new) (drop_empty-slots pools store pool ∙ rw e refl)
        ]
        | inr (c, e) ↦ elim (Result-cases (emit_into conn c).0) [
          | inr (cause, f) ↦
              rw (e, f, new) (omega (arith, pools.give_back-available (emit_into conn c).2 pool))
          | inl (_, f) ↦
              rw (e, f, new)
                (drop_empty-slots pools (record store { buffer = some (emit_into conn c).2 }) pool)
        ]
      ]

module _ ⦃o : Outside⦄ ⦃r : Roles⦄ where
  open o use {Pool, Cursor, available, view}
  open r use {Config, Sessions, take_session, return_session, send_on_open}

  -- A store lends a session at a time.
  pub record SessionLaws : Type 0 where
    pub free : Sessions → ℕ
    pub take_session-some : {s t : Sessions} → take_session s ≡ some t → free s ≡ suc (free t)
    pub return_session-free : (s : Sessions) → free (return_session s) ≡ suc (free s)

module _ ⦃o : Outside⦄ ⦃r : Roles⦄ (pools : PoolLaws) (sessions : SessionLaws) where
  open o use {Pool, Cursor, available, view}
  open r use {Config, take_session, return_session, send_on_open, open_role}
  open sessions use {free}

  abbrev pending_slots : Option (Connection × SendState) → ℕ
  pending_slots none = 0
  pending_slots (some (_, store)) = held store.buffer

  abbrev pending_sessions : Option (Connection × SendState) → ℕ
  pending_sessions none = 0
  pending_sessions (some _) = 1

  -- A new configuration is used for later openings, and the cached opening gives its send slot and
  -- its session back.
  pub reconfigure-returns :
      (run : Runtime) (config : Config)
      → let run' = reconfigure run config in
        (run'.pending ≡ none)
        × (run'.role ≡ config)
        × (available run'.pool ≡ pending_slots run.pending + available run.pool)
        × (free run'.sessions ≡ pending_sessions run.pending + free run.sessions)
  unfolding reconfigure
  reconfigure-returns run config = elim (Option-cases run.pending) [
    | inl e ↦ rw (e, reconfigure) (e, refl, omega arith, omega arith)
    | inr ((conn, store), e) ↦
        rw (e, reconfigure)
          (
            refl,
            refl,
            dropped-slots pools store.buffer run.pool,
            omega (arith, sessions.return_session-free run.sessions),
          )
  ]

  connect-slots :
      (config : Config) (b : Option Cursor) (pool : Pool)
      → result_slots (connect config b pool) ≡ held b + available pool
  unfolding connect dropped
  connect-slots config b pool = elim (Result-cases (open_role config)) [
    | inr (e, f) ↦ rw (f, connect) (dropped-slots pools b pool)
    | inl (n, f) ↦ rw (f, connect) (new-slots pools n (record { buffer = b }) pool)
  ]

  -- What an opening leaves: of one that did not succeed, as many free slots and sessions as before.
  abbrev pub Leaves : {T : Type 0} → ℕ → ℕ → Opening T × Runtime → Type 0
  Leaves p s (is_opened _, run) = Unit
  Leaves p s (is_unavailable, run) = (available run.pool ≡ p) × (free run.sessions ≡ s)
  Leaves p s (has_failed _, run) = (available run.pool ≡ p) × (free run.sessions ≡ s)

  Leaves-same :
      {T : Type 0} {p q s t : ℕ}
      → q ≡ p
      → t ≡ s
      → (x : Opening T × Runtime) → Leaves p s x
      → Leaves q t x
  Leaves-same e f x h = rw (e, f) h

  module _ {T : Type 0} (consume : Connection → SendState → Disposition T) where
    publish-Leaves :
        (p s : ℕ) (run : Runtime) (conn : Connection) (store : SendState)
        → Leaves p s (publish consume run conn store)
    unfolding publish
    publish-Leaves p s run conn store = ground arith

    with_session-Leaves :
        (run : Runtime) (b : Option Cursor)
        → Leaves
            (held b + available run.pool)
            (suc (free run.sessions))
            (with_session consume run b)
    unfolding with_session
    with_session-Leaves run b =
        let same = connect-slots run.role b run.pool in
        ground (arith, sessions.return_session-free run.sessions)

    -- An opening that fails, or for which a slot, a session or the first send buffer is missing,
    -- leaves as many free slots in the send pool and as many free sessions as there were.
    pub open_connection-Leaves :
        (run : Runtime)
        → Leaves (available run.pool) (free run.sessions) (open_connection consume run)
    unfolding open_connection
    open_connection-Leaves run = elim (Option-cases run.pending) [
      | inr ((conn, store), e) ↦
          rw (e, open_connection) (publish-Leaves _ _ (record run { pending = none }) conn store)
      | inl e ↦ elim (Option-cases (take_session run.sessions)) [
        | inl f ↦ rw (e, f, open_connection) (refl, refl)
        | inr (t, f) ↦
            let one : free run.sessions ≡ suc (free t) = sessions.take_session-some f in
            elim (Bool-cases send_on_open) [
              | inr g ↦
                  rw (e, f, g, open_connection)
                    (Leaves-same (omega arith) one _
                      (with_session-Leaves (record run { sessions = t }) none))
              | inl g ↦ elim (Option-cases (view run.pool)) [
                | inl h ↦
                    rw (e, f, g, h, open_connection)
                      (refl, sessions.return_session-free t ∙ sym one)
                | inr ((c, q), h) ↦
                    rw (e, f, g, h, open_connection)
                      (Leaves-same (omega (arith, pools.view-available h)) one _
                        (with_session-Leaves (record run { sessions = t; pool = q }) (some c)))
              ]
            ]
      ]
    ]
