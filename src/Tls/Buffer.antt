-- ===== src/Tls/Buffer.antt =====
-- SendState keeps the unsent bytes of its buffer through every operation but `consume_max`.
use tls.Base.{
  ℕ, ◌≡◌, refl, Bool, true, not, inl, inr, Option-cases, none, some, drop, drop-nil, arith,
}
use tls.Outside.{Outside}
use tls.Outside.Laws.{CursorLaws, PoolLaws}
use tls.Tls.{Connection, SendState, try_buffer, free_empty, drop_empty, as_slice, consume_max}
use tls.Tls.Link.{Link, put_back}

module _ ⦃o : Outside⦄ where
  open o use {Cursor, Pool, is_empty, view, as_slice as cursor_slice}

  pub as_slice-try_buffer :
      (pools : PoolLaws) (s : SendState) (p : Pool) → as_slice (try_buffer s p).0 ≡ as_slice s
  unfolding try_buffer as_slice
  as_slice-try_buffer pools s p = elim (Option-cases (view p)) [
    | inl e ↦ ground arith
    | inr ((c, q), e) ↦ ground (arith, pools.view-empty e)
  ]

  pub as_slice-free_empty :
      (cursors : CursorLaws) (s : SendState) (p : Pool) → as_slice (free_empty s p).1 ≡ as_slice s
  unfolding free_empty as_slice
  as_slice-free_empty cursors s p = elim (Option-cases s.buffer) [
    | inl e ↦ ground arith
    | inr (c, e) ↦ ground (arith, cursors.is_empty_iff c)
  ]

  pub as_slice-drop_empty :
      (cursors : CursorLaws) (s : SendState) (p : Pool) → as_slice (drop_empty s p).0 ≡ as_slice s
  unfolding drop_empty
  as_slice-drop_empty cursors s p = as_slice-free_empty cursors s p

  pub as_slice-consume_max :
      (cursors : CursorLaws) (s : SendState) (k : ℕ)
      → as_slice (consume_max s k) ≡ drop k (as_slice s)
  unfolding consume_max as_slice
  as_slice-consume_max cursors s k = elim (Option-cases s.buffer) [
    | inl e ↦ ground (arith, drop-nil {0} {A = ℕ} k)
    | inr (c, e) ↦ ground (arith, cursors.as_slice-consume_max c k)
  ]

  pub as_slice-put_back :
      (cursors : CursorLaws) (l : Link) (conn : Connection) (c : Cursor)
      → as_slice (put_back l conn c).store ≡ cursor_slice c
  unfolding put_back as_slice
  as_slice-put_back cursors l conn c =
      ground (arith, as_slice-drop_empty cursors (record { buffer = some c }) l.pool)

  pub put_back-conn : (l : Link) (conn : Connection) (c : Cursor) → (put_back l conn c).conn ≡ conn
  unfolding put_back
  put_back-conn l conn c = refl

  -- The buffer, if there is one, holds unsent bytes.
  abbrev pub is_tidy : SendState → Bool
  is_tidy s = elim s.buffer [ none ↦ true | some c ↦ not (is_empty c) ]

  pub free_empty-tidy : (s : SendState) (p : Pool) → is_tidy (free_empty s p).1 ≡ true
  unfolding free_empty
  free_empty-tidy s p = ground arith

  pub drop_empty-tidy : (s : SendState) (p : Pool) → is_tidy (drop_empty s p).0 ≡ true
  unfolding drop_empty
  drop_empty-tidy s p = free_empty-tidy s p

  pub put_back-tidy :
      (l : Link) (conn : Connection) (c : Cursor) → is_tidy (put_back l conn c).store ≡ true
  unfolding put_back
  put_back-tidy l conn c = drop_empty-tidy (record { buffer = some c }) l.pool
