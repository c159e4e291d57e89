-- ===== src/Tls/Senders/Pump.antt =====
-- Flushing and sending by turns, as the runtime does, empties the way to the socket.
use tls.Base.{
  ℕ, zero, suc, ◌+◌, ◌≤◌, ◌<◌, ◌≡◌, ◌⊎◌, refl, sym, ap, subst, ◌∙◌, inl, inr, Bool-cases,
  Option-cases, true, false, is_nil, not, ◌&&◌, some, List, [], ◌∷◌, ◌++◌, length, drop, arith,
  length-append, length-drop,
}
use tls.Outside.{Outside}
use tls.Outside.Laws.{CursorLaws, PoolLaws, WriteLaws}
use tls.State.Progress.{MovingLaws, drain-supplies, nil_of}
use tls.Tls.{SendState, as_slice, try_buffer, drain}
use tls.Tls.Drain.{drain-native, drain-cursor}
use tls.Tls.Buffer.{is_tidy, as_slice-put_back, put_back-conn}
use tls.Tls.Link.{Link, put_back}
use tls.Tls.Senders.{after_send, flush}
use tls.Tls.Senders.Slots.{link_slots, slots, flush-slots, after_send-slots}
use tls.Tls.Senders.Tidy.{after_send-tidy}
use tls.Tls.Senders.Wire.{link_wire, flush-wire, after_send-wire}

module _ ⦃o : Outside⦄ where
  -- A flush, then a send of all that the buffer shows, which the socket takes whole.
  pub round : Link → Link
  round l = let l' = (flush l).1 in (after_send l' (length (as_slice l'.store))).1

  pub pump : ℕ → Link → Link
  unfolding round
  pump zero l = l
  pump (suc n) l = pump n (round l)

module _ ⦃o : Outside⦄ (cursors : CursorLaws) (pools : PoolLaws) (writes : WriteLaws)
    (moving : MovingLaws) where
  open o use {view, available, wants_write, as_slice as cursor_slice}
  open writes use {queued}

  some_bytes : (xs : List ℕ) → (is_nil xs ≡ false) → 0 < length xs
  some_bytes [] e = absurd (ground arith)
  some_bytes (x ∷ xs) e = omega arith

  -- The buffer of a tidy connection has bytes, and a slot of the pool has room.
  try_buffer-sized :
      (store : SendState) (pool : o.Pool)
      → 0 < slots store pool
      → is_tidy store ≡ true
      → (c : o.Cursor) × ((try_buffer store pool).0.buffer ≡ some c)
        × (0 < length (cursor_slice c) + o.spare_len c)
  unfolding try_buffer
  try_buffer-sized store pool h tidy = elim (Option-cases store.buffer) [
    | inr (c, e) ↦ (
      c,
      rw (e, try_buffer) e,
      omega (arith, some_bytes (cursor_slice c) (ground (arith, cursors.is_empty_iff c))),
    )
    | inl e ↦ elim (Option-cases (view pool)) [
      | inl f ↦ absurd (ground (arith, pools.view-none f))
      | inr ((c, q), f) ↦
          (c, rw (e, f, try_buffer) refl, omega (arith, moving.view-spare_len pool q c f))
    ]
  ]

  -- After a flush rustls has nothing queued, or the buffer has bytes for the socket.
  flush-supplies :
      (l : Link)
      → 0 < link_slots l
      → is_tidy l.store ≡ true
      → (queued (flush l).1.conn.native ≡ []) ⊎ (0 < length (as_slice (flush l).1.store))
  unfolding flush
  flush-supplies l h tidy =
      elim (Bool-cases (is_nil (as_slice l.store) && not (wants_write l.conn.native))) [
        | inl idle ↦
            rw (idle, flush) (inl ((writes.wants_write_iff l.conn.native).0 (ground arith)))
        | inr busy ↦
            let (c, e, big) = try_buffer-sized l.store l.pool h tidy in
            let (store, pool) = try_buffer l.store l.pool in
            let l' : Link = record l { store = store; pool = pool } in
            let (cause, conn, out) = drain l.conn c in
            let shown : as_slice (put_back l' conn out).store ≡ cursor_slice out =
              as_slice-put_back cursors l' conn out in
            let got : (queued conn.native ≡ []) ⊎ (0 < length (cursor_slice out)) =
              rw (drain-native, drain-cursor)
                (drain-supplies cursors writes moving l.conn.native c big) in
            rw (busy, e, flush, shown, put_back-conn) got
      ]

  round-shrinks :
      (l : Link) (n : ℕ)
      → 0 < link_slots l
      → is_tidy l.store ≡ true
      → length (link_wire cursors pools writes l) ≤ suc n
      → length (link_wire cursors pools writes (round l)) ≤ n
  unfolding round
  round-shrinks l n h tidy le =
      let l' = (flush l).1 in
      let shown = as_slice l'.store in
      let rest = queued l'.conn.native in
      let all : length (shown ++ rest) ≤ suc n =
        subst (λ xs. length xs ≤ suc n) (sym (flush-wire cursors pools writes l)) le in
      let sizes = length-append shown rest in
      let bound : length (drop (length shown) shown ++ rest) ≤ n = elim (flush-supplies l h tidy) [
        | inl none_left ↦
            let z : length rest ≡ 0 = ap length none_left in
            omega (
              arith,
              z,
              length-append (drop (length shown) shown) rest,
              length-drop (length shown) shown,
            )
        | inr shows ↦ omega (
          arith,
          all,
          sizes,
          shows,
          length-append (drop (length shown) shown) rest,
          length-drop (length shown) shown,
        )
      ] in
      subst (λ xs. length xs ≤ n) (sym (after_send-wire cursors pools writes l' (length shown)))
        bound

  round-slots : (l : Link) → link_slots (round l) ≡ link_slots l
  unfolding round
  round-slots l =
      after_send-slots pools (flush l).1 (length (as_slice (flush l).1.store)) ∙ flush-slots pools l

  round-tidy : (l : Link) → is_tidy (round l).store ≡ true
  unfolding round
  round-tidy l = after_send-tidy (flush l).1 (length (as_slice (flush l).1.store))

  -- Where the connection has a send buffer or the pool a free slot, the buffer holds unsent bytes if
  -- there is one, and rustls moves a byte at least whenever it is asked with room, flushes and whole sends by turns empty the way to the socket, in
  -- as many rounds as there are bytes on it.
  pub pump-empties :
      (n : ℕ) (l : Link)
      → 0 < link_slots l
      → is_tidy l.store ≡ true
      → length (link_wire cursors pools writes l) ≤ n
      → link_wire cursors pools writes (pump n l) ≡ []
  unfolding pump
  pump-empties zero l h tidy le = nil_of (link_wire cursors pools writes l) (omega arith)
  pump-empties (suc n) l h tidy le =
      pump-empties n (round l) (omega (arith, round-slots l)) (round-tidy l)
        (round-shrinks l n h tidy le)
