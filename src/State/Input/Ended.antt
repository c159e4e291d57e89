-- ===== src/State/Input/Ended.antt =====
-- A read of a connection that has failed or whose peer has closed.
use tls.Base.{
  ℕ, suc, ◌≡◌, refl, Bool, true, false, not, ◌&&◌, ◌||◌, none, some, ok, List, ◌==◌, length, arith,
}
use tls.Outside.{Outside}
use tls.State.Staged.{Staged, ready, released}
use tls.State.Input.{Input, read_loop, publish, owned}
use tls.Tls.{Connection}

module _ ⦃o : Outside⦄ where
  -- The connection has failed, or the end of the peer has been read.
  abbrev pub has_ended : Connection → Bool
  has_ended conn = conn.peer_closed || conn.failed

  read_loop-ended :
      (fuel : ℕ) (conn : Connection) (input : Input) (staged : Staged)
      → has_ended conn ≡ true
      → read_loop (suc fuel) conn input staged ≡ some (ok tt, conn, input, staged)
  unfolding read_loop
  read_loop-ended fuel conn input staged h =
      let stop : (not (input.used == length input.bytes)
            && (not conn.peer_closed && not conn.failed))
          ≡ false =
        ground (arith, h) in
      rw (stop, read_loop) refl

  -- Nothing is read, and nothing is published.
  pub owned-ended :
      (conn : Connection) (bytes : List ℕ) (recv : o.Reserve)
      → has_ended conn ≡ true
      → owned conn bytes recv
        ≡ some (
          record { chunk = none; control = ok tt; release = released },
          record { bytes = bytes; len = 0 },
          conn,
        )
  unfolding owned publish
  owned-ended conn bytes recv h =
      rw
        (
          read_loop-ended (length bytes) conn (record { bytes = bytes; used = 0; len = 0 })
              (ready recv) h,
          owned,
        )
        refl
