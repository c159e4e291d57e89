-- ===== src/Tls/Encrypt/Rule.antt =====
-- An induction rule for the encryption loop: what a round, and a drain, keep of the connection, the
-- buffer and the plaintext left, the loop keeps on every way out.
use tls.Base.{
  ℕ, zero, suc, inl, inr, Bool-cases, Result-cases, Option-cases, Option, none, some, ◌==◌,
}
use tls.Outside.{Outside}
use tls.Tls.{Connection, can_write, drain}
use tls.Tls.Drain.{drain-native, drain-cursor}
use tls.Tls.Link.{Processed}
use tls.Tls.Encrypt.{Attempts, goes_on, seal_loop, or_stay, seal}
use tls.State

module _ ⦃o : Outside⦄ (a : Attempts) where
  open o use {Cursor, Native}
  open a use {Left, attempt}

  abbrev pub Kept {ℓ} :
      (Native → Cursor → Left → Type ℓ)
      → Option (Processed (Unit {0}) × Connection × Cursor × Left)
      → Type ℓ
  Kept P none = Unit
  Kept P (some (r, conn, out, plain)) = P conn.native out plain

  pub record Keeps {ℓ} (P : Native → Cursor → Left → Type ℓ) : Type ℓ where
    pub on_attempt :
        (n : Native) (out : Cursor) (plain : Left)
        → P n out plain
        → P (attempt n plain).1 out (attempt n plain).2
    pub on_drain :
        (n : Native) (out : Cursor) (plain : Left)
        → P n out plain
        → P (State.drain n out).1 (State.drain n out).2 plain

  module _ {ℓ} (P : Native → Cursor → Left → Type ℓ) (keeps : Keeps P) where
    drained :
        (conn : Connection) (out : Cursor) (plain : Left)
        → P conn.native out plain
        → P (drain conn out).1.native (drain conn out).2 plain
    drained conn out plain h =
        rw (drain-native, drain-cursor) (keeps.on_drain conn.native out plain h)

    seal_loop-Kept :
        (fuel : ℕ) (conn : Connection) (out : Cursor) (plain : Left)
        → P conn.native out plain
        → Kept P (seal_loop a fuel conn out plain)
    unfolding seal_loop
    seal_loop-Kept zero conn out plain h = tt
    seal_loop-Kept (suc fuel) conn out plain h =
        let tried = keeps.on_attempt conn.native out plain h in
        elim (Bool-cases (goes_on a conn out plain)) [
          | inr stop ↦ rw (stop, seal_loop) h
          | inl go ↦ elim (Result-cases (attempt conn.native plain).0) [
            | inr (c, e) ↦ rw (go, e, seal_loop) tried
            | inl (k, e) ↦
                let plain' = (attempt conn.native plain).2 in
                let conn' : Connection = record conn { native = (attempt conn.native plain).1 } in
                let h' = drained conn' out plain' tried in
                elim (Option-cases (drain conn' out).0) [
                  | inr (c, f) ↦ rw (go, e, f, seal_loop) h'
                  | inl f ↦ elim (Bool-cases (k == 0)) [
                    | inl last ↦ rw (go, e, f, last, seal_loop) h'
                    | inr more ↦
                        rw (go, e, f, more, seal_loop)
                          (seal_loop-Kept fuel (drain conn' out).1 (drain conn' out).2 plain' h')
                  ]
                ]
          ]
        ]

    or_stay-Kept :
        (conn : Connection) (out : Cursor) (plain : Left)
        (r : Option (Processed (Unit {0}) × Connection × Cursor × Left))
        → P conn.native out plain
        → Kept P r
        → let (_, conn', out', plain') = or_stay a conn out plain r in P conn'.native out' plain'
    or_stay-Kept conn out plain none h v = h
    or_stay-Kept conn out plain (some r) h v = v

    pub seal-Kept :
        (conn : Connection) (out : Cursor) (plain : Left)
        → P conn.native out plain
        → let (_, conn', out', plain') = seal a conn out plain in P conn'.native out' plain'
    unfolding seal
    seal-Kept conn out plain h = elim (Bool-cases (can_write conn)) [
      | inr refused ↦ rw (refused, seal) h
      | inl allowed ↦
          rw (allowed, seal) (or_stay-Kept conn out plain _ h (seal_loop-Kept _ conn out plain h))
    ]
