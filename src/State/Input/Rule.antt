-- ===== src/State/Input/Rule.antt =====
-- A rule for one read: what the calls of rustls, a failure and the end of the peer keep of a
-- connection, the read keeps.
use tls.Base.{
  ℕ, zero, suc, ◌+◌, ◌*◌, true, inl, inr, Bool, Bool-cases, Result-cases, Option-cases, Option,
  none, some, Result, ok, err, and, not, ◌&&◌, ◌||◌, List, [], ◌==◌, leb, length, drop, subst,
}
use tls.Outside.{Outside}
use tls.Error.{Error}
use tls.Tls.{Connection}
use tls.State.Staged.{Staged, ready, Output}
use tls.State.Input.Copying.{CopyKept, copy_loop-Kept}
use tls.State.Input.{Input, Plain, copy_plain, process, read_loop, publish, owned}

module _ ⦃o : Outside⦄ where
  open o use {Native, read_tls, process_new_packets, fill_buf, consume, write}

  pub record ReadKeeps (P : Connection → Type 0) : Type 0 where
    pub on_read_tls :
        (conn : Connection) (bs : List ℕ)
        → P conn
        → P (record conn { native = (read_tls conn.native bs).1 })
    pub on_process :
        (conn : Connection)
        → P conn
        → P (record conn { native = (process_new_packets conn.native).1 })
    pub on_probe :
        (conn : Connection) → P conn → P (record conn { native = (write conn.native []).1 })
    pub on_fill_buf :
        (conn : Connection) → P conn → P (record conn { native = (fill_buf conn.native).1 })
    pub on_consume :
        (conn : Connection) (k : ℕ) → P conn → P (record conn { native = consume conn.native k })
    pub on_peer_closed :
        (conn : Connection) (closed : Bool)
        → P conn
        → P (record conn { peer_closed = conn.peer_closed || closed })
    pub on_fail : (conn : Connection) → P conn → P (record conn { failed = true })

module _ ⦃o : Outside⦄ where
  abbrev LoopKept :
      (Connection → Type 0)
      → Option (Result Error (Unit {0}) × Connection × Input × Staged)
      → Type 0
  LoopKept P none = Unit
  LoopKept P (some (r, conn, i, s)) = P conn

  -- A read keeps `P` of the connection, if it returns.
  abbrev pub OwnedKept : (Connection → Type 0) → Option (Output × Plain × Connection) → Type 0
  OwnedKept P none = Unit
  OwnedKept P (some (out, plain, conn)) = P conn

module _ ⦃o : Outside⦄ (P : Connection → Type 0) (keeps : ReadKeeps P) where
  open o use {Native, Reserve, read_tls, process_new_packets, is_handshaking, write, check}

  copy_plain-Kept :
      (conn : Connection) (i : Input) (s : Staged)
      → P conn
      → CopyKept (λ n. P (record conn { native = n })) (copy_plain conn.native i s)
  unfolding copy_plain
  copy_plain-Kept conn i s h =
      copy_loop-Kept (λ n. P (record conn { native = n }))
        (λ n q. keeps.on_fill_buf (record conn { native = n }) q)
        (λ n k q. keeps.on_consume (record conn { native = n }) k q) (2 * i.used + 3) conn.native i
        s h

  process-Kept : (conn : Connection) → P conn → P (process conn).1
  unfolding process
  process-Kept conn h =
      let native = (process_new_packets conn.native).1 in
      let h' = keeps.on_process conn h in
      elim (Result-cases (process_new_packets conn.native).0) [
        | inr (c, e) ↦ rw (e, process) h'
        | inl (closed, e) ↦
            let conn' : Connection = record conn {
              native = native;
              peer_closed = conn.peer_closed || closed;
            } in
            let h2 : P conn' = keeps.on_peer_closed (record conn { native = native }) closed h' in
            elim (Bool-cases (not conn.local_closed && not (is_handshaking native))) [
              | inr f ↦ rw (e, f, process) h2
              | inl f ↦ elim (Result-cases (write native []).0) [
                | inr (c, g) ↦ rw (e, f, g, process) (keeps.on_probe conn' h2)
                | inl (n, g) ↦ elim (Result-cases (check n 0)) [
                  | inl (_, x) ↦ rw (e, f, g, x, process) (keeps.on_probe conn' h2)
                  | inr (_, x) ↦ rw (e, f, g, x, process) (keeps.on_probe conn' h2)
                ]
              ]
            ]
      ]

  read_loop-Kept :
      (fuel : ℕ) (conn : Connection) (i : Input) (s : Staged)
      → P conn
      → LoopKept P (read_loop fuel conn i s)
  unfolding read_loop
  read_loop-Kept zero conn i s h = tt
  read_loop-Kept (suc fuel) conn i s h =
      elim (Bool-cases
        (not (i.used == length i.bytes) && (not conn.peer_closed && not conn.failed))) [
          | inr stop ↦ rw (stop, read_loop) h
          | inl go ↦ elim (Bool-cases (leb i.used (length i.bytes))) [
            | inr out ↦ rw (go, out, read_loop) tt
            | inl inside ↦
                let tail = drop i.used i.bytes in
                let conn' : Connection = record conn { native = (read_tls conn.native tail).1 } in
                let h' : P conn' = keeps.on_read_tls conn tail h in
                elim (Result-cases (read_tls conn.native tail).0) [
                  | inr (c, e) ↦ rw (go, inside, e, read_loop) h'
                  | inl (count, e) ↦
                      let i' : Input = record i { used = i.used + count } in
                      elim (Bool-cases (count == 0)) [
                        | inl nothing ↦ rw (go, inside, e, nothing, read_loop) h'
                        | inr more ↦
                            let (p, after) = process conn' in
                            let copied = copy_plain-Kept after i' s (process-Kept conn' h') in
                            elim (Option-cases (copy_plain after.native i' s)) [
                              | inl f ↦ rw (go, inside, e, more, f, read_loop) tt
                              | inr ((c, native, i2, s2), f) ↦
                                  let h3 =
                                    subst (CopyKept (λ n. P (record after { native = n }))) f
                                      copied in
                                  elim (Result-cases (and p c)) [
                                    | inr (x, g) ↦ rw (go, inside, e, more, f, g, read_loop) h3
                                    | inl (_, g) ↦
                                        rw (go, inside, e, more, f, g, read_loop)
                                          (read_loop-Kept fuel (record after { native = native }) i2
                                            s2 h3)
                                  ]
                            ]
                      ]
                ]
          ]
        ]

  publish-Kept :
      (r : Result Error (Unit {0})) (conn : Connection) (i : Input) (s : Staged)
      → P conn
      → P (publish (r, conn, i, s)).2
  unfolding publish
  publish-Kept (ok _) conn i s h = h
  publish-Kept (err _) conn i s h = keeps.on_fail conn h

  pub owned-Kept :
      (conn : Connection) (bytes : List ℕ) (recv : Reserve)
      → P conn
      → OwnedKept P (owned conn bytes recv)
  unfolding owned
  owned-Kept conn bytes recv h =
      let start : Input = record { bytes = bytes; used = 0; len = 0 } in
      let kept = read_loop-Kept (suc (length bytes)) conn start (ready recv) h in
      elim (Option-cases (read_loop (suc (length bytes)) conn start (ready recv))) [
        | inl e ↦ rw (e, owned) tt
        | inr ((r, conn', i, s), e) ↦
            rw (e, owned) (publish-Kept r conn' i s (subst (LoopKept P) e kept))
      ]
