-- ===== src/State/Input/Delivery.antt =====
-- What Input::owned publishes.
use tls.Base.{
  ℕ, suc, ◌≤◌, ◌≡◌, ◌≢◌, ◌↔◌, refl, subst, inl, inr, Option-cases, true, ◌||◌, is_ok, none, some,
  Result, List, [], ◌++◌, length, take, arith,
}
use tls.Outside.{Outside}
use tls.Outside.Laws.{ReserveLaws, ReadLaws}
use tls.Error.{Error}
use tls.Tls.{Connection}
use tls.State.Staged.{Staged, ready, kept, gone, Output, retained}
use tls.State.Input.{Input, Plain, read_loop, publish, owned}
use tls.State.Input.Place.{Inv, start-Inv}
use tls.State.Input.Read.{chunk_bytes, Reads, read_loop-Reads}

module _ ⦃o : Outside⦄ (reads : ReadLaws) where
  open reads use {delivered}

  -- `published` is the receive buffer's chunk, then the prefix of the input.
  pub record Delivers (conn : Connection) (bytes : List ℕ) (r : Output × Plain × Connection)
      : Type 0 where
    pub extent : length r.1.bytes ≡ length bytes
    pub bounded : r.1.len ≤ length r.1.bytes
    pub in_order :
        delivered r.2.native
        ≡ delivered conn.native ++ (chunk_bytes r.0.chunk ++ take r.1.len r.1.bytes)
    pub kept_slot : (r.0.release ≡ retained) ↔ (r.0.chunk ≢ none)
    pub fails : (is_ok r.0.control || r.2.failed) ≡ true

module _ ⦃o : Outside⦄ (reserves : ReserveLaws) (reads : ReadLaws) where
  open o use {Reserve, chunk_slice, freeze}
  open reads use {delivered}

  publish-Delivers :
      (conn : Connection) (bytes : List ℕ) (r : Result Error (Unit {0})) (c : Connection)
      (i : Input) (s : Staged)
      → Inv reserves reads (delivered conn.native) bytes c.native i s
      → Delivers reads conn bytes (publish (r, c, i, s))
  unfolding publish
  publish-Delivers conn bytes r c i (ready x) v =
      ground (arith, v.fits, v.within, v.extent, v.in_order)
  publish-Delivers conn bytes r c i (kept x) v =
      ground (arith, v.fits, v.within, v.extent, v.in_order)
  publish-Delivers conn bytes r c i gone v = ground (arith, v.fits, v.within, v.extent, v.in_order)

  -- A read returns, without a fault, for every input. Its plaintext lies within the input, and the
  -- published chunk followed by the published prefix is the plaintext that rustls delivered during
  -- the read, in order, an error included. The receive slot stays taken exactly when a chunk is
  -- published, and an error fails the connection.
  pub owned-Delivers :
      (conn : Connection) (bytes : List ℕ) (recv : Reserve)
      → chunk_slice (freeze recv) ≡ []
      → (r : Output × Plain × Connection) × (owned conn bytes recv ≡ some r)
        × Delivers reads conn bytes r
  unfolding owned
  owned-Delivers conn bytes recv fresh =
      let start : Input = record { bytes = bytes; used = 0; len = 0 } in
      let result = read_loop (suc (length bytes)) conn start (ready recv) in
      let reading =
        read_loop-Reads reserves reads (delivered conn.native) bytes (suc (length bytes)) conn start
          (ready recv) (start-Inv reserves reads conn bytes recv fresh) (omega arith) in
      elim (Option-cases result) [
        | inl fault ↦
            absurd (subst (Reads reserves reads (delivered conn.native) bytes) fault reading)
        | inr ((r, c, i, s), e) ↦ (
          publish (r, c, i, s),
          rw (e, owned) refl,
          publish-Delivers conn bytes r c i s
              (subst (Reads reserves reads (delivered conn.native) bytes) e reading),
        )
      ]
