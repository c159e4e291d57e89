-- ===== src/Tls/Endpoint/Open/Cached.antt =====
-- The cache of Runtime::open: what its caller gives back is handed out by the next opening.
use tls.Base.{
  ◌≡◌, ◌⊎◌, refl, ap, sym, subst, inl, inr, Bool-cases, Option-cases, Result-cases, Option, none,
  some, ok, arith,
}
use tls.Outside.{Outside}
use tls.Error.{Error, buffer_unavailable}
use tls.Tls.{Connection, SendState}
use tls.Tls.Endpoint.Open.{
  Roles, Disposition, consumed, given_back, Opening, is_unavailable, has_failed, is_opened, Runtime,
  connect, publish, with_session, open_connection,
}

module _ ⦃o : Outside⦄ ⦃r : Roles⦄ where
  open o use {Cursor, Pool}

  -- Where an opening comes from: the cache, with no session or slot taken, or a new session and what
  -- the role opens.
  abbrev pub Comes :
      Option (Connection × SendState)
      → Runtime
      → Connection
      → SendState
      → r.Sessions
      → Pool
      → Type 0
  Comes (some cached) run conn store sessions pool =
      (cached ≡ (conn, store)) × (sessions ≡ run.sessions) × (pool ≡ run.pool)
  Comes none run conn store sessions pool =
      (r.take_session run.sessions ≡ some sessions)
      × ((pending : Option Cursor) × (pool' : Pool) × (connect run.role pending pool'
            ≡ (ok (conn, store), pool)))

module _ ⦃o : Outside⦄ ⦃r : Roles⦄ {T : Type 0} where
  open o use {Cursor, Pool}

  -- The caller's output, and the cache as the caller has left it.
  abbrev pub Settled : Disposition T → T → Option (Connection × SendState) → Type 0
  Settled (consumed t') t pending = (t' ≡ t) × (pending ≡ none)
  Settled (given_back t' conn store) t pending = (t' ≡ t) × (pending ≡ some (conn, store))

  -- What an opening makes of the cache. Without an opening there is nothing in it, before or after.
  abbrev pub Caches :
      (Connection → SendState → Disposition T) → Runtime → Opening T × Runtime → Type 0
  Caches consume run (is_opened t, run') =
      (conn : Connection) × (store : SendState) × Comes run.pending run conn store run'.sessions
        run'.pool
      × Settled (consume conn store) t run'.pending
      × (run'.role ≡ run.role)
  Caches consume run (is_unavailable, run') =
      (run.pending ≡ none) × (run'.pending ≡ none) × (run'.role ≡ run.role)
  Caches consume run (has_failed cause, run') =
      (run.pending ≡ none) × (run'.pending ≡ none) × (run'.role ≡ run.role)

  Disposition-cases :
      (d : Disposition T)
      → ((t : T) × (d ≡ consumed t))
        ⊎ ((t : T) × (conn : Connection) × (store : SendState) × (d ≡ given_back t conn store))
  Disposition-cases (consumed t) = inl (t, refl)
  Disposition-cases (given_back t conn store) = inr (t, conn, store, refl)

  module _ (consume : Connection → SendState → Disposition T) where
    publish-Caches :
        (run run' : Runtime) (conn : Connection) (store : SendState)
        → run'.pending ≡ none
        → run'.role ≡ run.role
        → Comes run.pending run conn store run'.sessions run'.pool
        → Caches consume run (publish consume run' conn store)
    unfolding publish
    publish-Caches run run' conn store e f h = elim (Disposition-cases (consume conn store)) [
      | inl (t, g) ↦ rw (g, publish) (conn, store, h, rw g (refl, e), f)
      | inr (t, conn', store', g) ↦ rw (g, publish) (conn, store, h, rw g (refl, refl), f)
    ]

    with_session-Caches :
        (run run' : Runtime) (pending : Option Cursor)
        → run.pending ≡ none
        → run'.pending ≡ none
        → run'.role ≡ run.role
        → r.take_session run.sessions ≡ some run'.sessions
        → Caches consume run (with_session consume run' pending)
    unfolding with_session
    with_session-Caches run run' pending e e' f h =
        let lost_by : (cause : Error)
            → Caches consume run (elim cause [
              | buffer_unavailable ↦ (
                is_unavailable,
                record run' {
                  pool = (connect run'.role pending run'.pool).1;
                  sessions = r.return_session run'.sessions;
                },
              )
              | cause' ↦ (
                has_failed cause',
                record run' {
                  pool = (connect run'.role pending run'.pool).1;
                  sessions = r.return_session run'.sessions;
                },
              )
            ]) =
          λ cause. ground (arith, e, e', f) in
        elim (Result-cases (connect run'.role pending run'.pool).0) [
          | inr (cause, g) ↦ rw (g, with_session) (lost_by cause)
          | inl ((conn, store), g) ↦
              rw (g, with_session)
                (publish-Caches run (record run' { pool = (connect run'.role pending run'.pool).1 })
                  conn store e' f
                  (rw e (
                    h,
                    (
                      pending,
                      run'.pool,
                      rw (← f) (ap (λ x. (x, (connect run'.role pending run'.pool).1)) g),
                    ),
                  )))
        ]

    -- An opening that succeeds hands its caller the cached opening, if there is one, and takes no
    -- session or send slot for it; else what the role opens, with a new session. What the caller gives
    -- back is in the cache then, for the next opening, and nothing is there if the caller keeps it.
    -- Without an opening the cache is empty, as it was before. The configuration stays.
    pub open_connection-Caches : (run : Runtime) → Caches consume run (open_connection consume run)
    unfolding open_connection
    open_connection-Caches run = elim (Option-cases run.pending) [
      | inr ((conn, store), e) ↦
          let step : open_connection consume run
              ≡ publish consume (record run { pending = none }) conn store =
            ground arith in
          let comes : Comes run.pending run conn store run.sessions run.pool =
            subst (λ p. Comes p run conn store run.sessions run.pool) (sym e) (refl, refl, refl) in
          subst (Caches consume run) (sym step)
            (publish-Caches run (record run { pending = none }) conn store refl refl comes)
      | inl e ↦ elim (Option-cases (r.take_session run.sessions)) [
        | inl f ↦ rw (e, f, open_connection) (refl, e, refl)
        | inr (rest, f) ↦
            let run' : Runtime = record run { sessions = rest } in
            elim (Bool-cases r.send_on_open) [
              | inr g ↦
                  let step : open_connection consume run ≡ with_session consume run' none =
                    ground arith in
                  subst (Caches consume run) (sym step)
                    (with_session-Caches run run' none e e refl f)
              | inl g ↦ elim (Option-cases (o.view run.pool)) [
                | inl k ↦
                    let back : Runtime = record run { sessions = r.return_session rest } in
                    let step : open_connection consume run ≡ (is_unavailable, back) =
                      ground arith in
                    subst (Caches consume run) (sym step) (e, e, refl)
                | inr ((cursor, pool), k) ↦
                    let taken : Runtime = record run { sessions = rest; pool = pool } in
                    let step : open_connection consume run
                        ≡ with_session consume taken (some cursor) =
                      ground arith in
                    subst (Caches consume run) (sym step)
                      (with_session-Caches run taken (some cursor) e e refl f)
              ]
            ]
      ]
    ]
