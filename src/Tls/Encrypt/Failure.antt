-- ===== src/Tls/Encrypt/Failure.antt =====
-- The flags of the connection under the encryption loop.
use tls.Base.{
  ℕ, zero, suc, ◌≡◌, refl, inl, inr, Bool-cases, Result-cases, Option-cases, Bool, true, false,
  ◌||◌, Option, none, some, ◌==◌, arith,
}
use tls.Outside.{Outside}
use tls.Tls.{Connection, can_write, drain}
use tls.Tls.Drain.{drain-failed, drain-local_closed, drain-peer_closed}
use tls.Tls.Link.{Processed, output, terminal, eof}
use tls.Tls.Encrypt.{Attempts, goes_on, seal_loop, or_stay, seal}

module _ ⦃o : Outside⦄ where
  abbrev pub is_terminal : {A : Type 0} → Processed A → Bool
  is_terminal (output _) = false
  is_terminal (terminal _ _) = true
  is_terminal (eof _) = false

  -- The connection has failed if it had before or the operation reports a failure, and no other
  -- flag has changed.
  pub record Flags {A : Type 0} (c : Connection) (r : Processed A) (c' : Connection) : Type 0 where
    pub failed : c'.failed ≡ (is_terminal r || c.failed)
    pub local_closed : c'.local_closed ≡ c.local_closed
    pub peer_closed : c'.peer_closed ≡ c.peer_closed

module _ ⦃o : Outside⦄ (a : Attempts) where
  open o use {Cursor}
  open a use {Left, attempt}

  abbrev Flagged : Connection → Option (Processed (Unit {0}) × Connection × Cursor × Left) → Type 0
  Flagged c none = Unit
  Flagged c (some (r, c', _, _)) = Flags c r c'

  Flagged-drain :
      (n : o.Native) (c : Connection) (out : Cursor)
      (r : Option (Processed (Unit {0}) × Connection × Cursor × Left))
      → (drain (record c { native = n }) out).0 ≡ none
      → Flagged (drain (record c { native = n }) out).1 r
      → Flagged c r
  Flagged-drain n c out none e v = tt
  Flagged-drain n c out (some (r, c', out', p)) e v =
      let w : Connection = record c { native = n } in
      ground (arith, drain-failed w out, drain-local_closed w out, drain-peer_closed w out)

  abbrev same_flags :
      (c : Connection) (n : o.Native) → Flags c (output tt) (record c { native = n })
  same_flags c n = record { failed = refl; local_closed = refl; peer_closed = refl }

  seal_loop-Flagged :
      (fuel : ℕ) (conn : Connection) (out : Cursor) (plain : Left)
      → Flagged conn (seal_loop a fuel conn out plain)
  unfolding seal_loop
  seal_loop-Flagged zero conn out plain = tt
  seal_loop-Flagged (suc fuel) conn out plain = elim (Bool-cases (goes_on a conn out plain)) [
    | inr stop ↦ rw (stop, seal_loop) (same_flags conn conn.native)
    | inl go ↦ elim (Result-cases (attempt conn.native plain).0) [
      | inr (c, e) ↦
          rw (go, e, seal_loop) (record { failed = refl; local_closed = refl; peer_closed = refl })
      | inl (k, e) ↦
          let conn' : Connection = record conn { native = (attempt conn.native plain).1 } in
          elim (Option-cases (drain conn' out).0) [
            | inr (c, f) ↦
                rw (go, e, f, seal_loop)
                  (record {
                    failed = refl;
                    local_closed = drain-local_closed conn' out;
                    peer_closed = drain-peer_closed conn' out;
                  })
            | inl f ↦ elim (Bool-cases (k == 0)) [
              | inl last ↦
                  rw (go, e, f, last, seal_loop)
                    (ground (
                      arith,
                      drain-failed conn' out,
                      drain-local_closed conn' out,
                      drain-peer_closed conn' out,
                    ))
              | inr more ↦
                  rw (go, e, f, more, seal_loop)
                    (Flagged-drain _ conn out _ f (seal_loop-Flagged fuel _ _ _))
            ]
          ]
    ]
  ]

  or_stay-Flags :
      (conn : Connection) (out : Cursor) (plain : Left)
      (r : Option (Processed (Unit {0}) × Connection × Cursor × Left))
      → Flagged conn r
      → Flags conn (or_stay a conn out plain r).0 (or_stay a conn out plain r).1
  or_stay-Flags conn out plain none v = same_flags conn conn.native
  or_stay-Flags conn out plain (some r) v = v

  pub seal-Flags :
      (conn : Connection) (out : Cursor) (plain : Left)
      → Flags conn (seal a conn out plain).0 (seal a conn out plain).1
  unfolding seal
  seal-Flags conn out plain = elim (Bool-cases (can_write conn)) [
    | inr refused ↦ rw (refused, seal) (same_flags conn conn.native)
    | inl allowed ↦
        rw (allowed, seal) (or_stay-Flags conn out plain _ (seal_loop-Flagged _ conn out plain))
  ]
