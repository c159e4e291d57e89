-- ===== src/Tls/Drain.antt =====
-- Connection::drain and emit_into against `drain` of src/state/mod.rs: the native side is the same, and the
-- flags change by a failure alone.
use tls.Base.{◌≡◌, Bool, true, false, ◌||◌, Option, none, some, arith}
use tls.Outside.{Outside}
use tls.Tls.{Connection, drain}
use tls.State

module _ ⦃o : Outside⦄ where
  abbrev pub is_some {ℓ} : {A : Type ℓ} → Option A → Bool
  is_some none = false
  is_some (some _) = true

  pub drain-native :
      (conn : Connection) (out : o.Cursor)
      → (drain conn out).1.native ≡ (State.drain conn.native out).1
  unfolding drain
  drain-native conn out = ground arith

  pub drain-cursor :
      (conn : Connection) (out : o.Cursor) → (drain conn out).2 ≡ (State.drain conn.native out).2
  unfolding drain
  drain-cursor conn out = ground arith

  pub drain-failed :
      (conn : Connection) (out : o.Cursor)
      → (drain conn out).1.failed ≡ (is_some (drain conn out).0 || conn.failed)
  unfolding drain
  drain-failed conn out = ground arith

  pub drain-local_closed :
      (conn : Connection) (out : o.Cursor) → (drain conn out).1.local_closed ≡ conn.local_closed
  unfolding drain
  drain-local_closed conn out = ground arith

  pub drain-peer_closed :
      (conn : Connection) (out : o.Cursor) → (drain conn out).1.peer_closed ≡ conn.peer_closed
  unfolding drain
  drain-peer_closed conn out = ground arith
