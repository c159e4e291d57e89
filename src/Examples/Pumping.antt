-- ===== src/Examples/Pumping.antt =====
-- Flushing and sending by turns in the small model.
use tls.Base.{
  ℕ, zero, suc, ◌-◌, ◌<◌, ◌≡◌, refl, ap, true, false, not, is_nil, some, ok, [], ◌∷◌, ◌++◌, ◌==◌,
  length, append-nil, arith,
}
use tls.Examples.Toy.{ToyNative, ToyCursor, toy, toy_view, toy_cursors, toy_pools, toy_writes}
use tls.State
use tls.State.Output.{write_all_vectored-Writes}
use tls.State.Progress.{MovingLaws}
use tls.Tls.{as_slice}
use tls.Tls.Link.{Link}
use tls.Tls.Senders.Wire.{link_wire}
use tls.Tls.Senders.Pump.{pump, pump-empties}

moves :
    (n : ToyNative) (s : ToyCursor)
    → not (is_nil n.sealed) ≡ true
    → (s.room == 0) ≡ false
    → (k : ℕ) × ((State.write_all_vectored s (n.sealed ∷ [])).0 ≡ suc k)
moves n s more room =
    let count = (write_all_vectored-Writes toy_cursors s (n.sealed ∷ [])).count in
    let sizes : length (n.sealed ++ []) ≡ length n.sealed = ap length (append-nil n.sealed) in
    let some_byte : 0 < length n.sealed = ground arith in
    let some_room : 0 < s.room = ground arith in
    (
      (State.write_all_vectored s (n.sealed ∷ [])).0 - 1,
      omega (arith, count, sizes, some_byte, some_room),
    )

view_room : (p q : ℕ) (c : ToyCursor) → toy_view p ≡ some (c, q) → 0 < c.room
view_room zero q c e = absurd (ground arith)
view_room (suc p) q c e = ground arith

moving : MovingLaws
moving = record {
  write_tls-moves = λ n s more room. let (k, e) = moves n s more room in (k, ap ok e);
  view-spare_len = view_room;
}

abbrev full_link : Link
full_link = record {
  conn = record {
    native = record {
      sealed = 7 ∷ 8 ∷ 9 ∷ [];
      incoming = [];
      plain = [];
      accepted = [];
      handed = [];
      shaking = false;
    };
    peer_closed = false;
    local_closed = false;
    failed = false;
  };
  store = record { buffer = some (record { bytes = 5 ∷ 6 ∷ []; room = 1 }) };
  pool = 1;
}

pump-empties_example : link_wire toy_cursors toy_pools toy_writes (pump 5 full_link) ≡ []
unfolding as_slice
pump-empties_example =
    pump-empties toy_cursors toy_pools toy_writes moving 5 full_link (omega arith) refl
      (omega arith)
