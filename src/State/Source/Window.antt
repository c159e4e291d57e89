-- ===== src/State/Source/Window.antt =====
-- A cursor shows the suffix of its plaintext that is not consumed.
use tls.Base.{
  ℕ, ◌-◌, ◌+◌, ◌≤◌, ◌≡◌, refl, ap, sym, ◌∙◌, some, List, length, take, drop, arith, length-take,
  length-drop, drop-take, drop-drop,
}
use tls.State.Input.{Plain}
use tls.State.Source.{of_plain, Cursor, view, as_slice}

-- The plaintext not consumed, and the range that it lies in.
unfoldable pub unread : Cursor → List ℕ
unread c = take c.len (drop (c.end - c.len) c.bytes)

pub record InRange (c : Cursor) : Type 0 where
  pub shrinks : c.len ≤ c.end
  pub fits : c.end ≤ length c.bytes

pub length-unread : (c : Cursor) → InRange c → length (unread c) ≡ c.len
unfolding unread
length-unread c h = omega (
  arith,
  length-take c.len (drop (c.end - c.len) c.bytes),
  length-drop (c.end - c.len) c.bytes,
  h.shrinks,
  h.fits,
)

pub as_slice-unread : (c : Cursor) → InRange c → as_slice c ≡ some (unread c)
unfolding as_slice view unread
as_slice-unread c h = ground (arith, h.shrinks, h.fits)

pub unread-drop :
    (c : Cursor) (k : ℕ)
    → InRange c
    → k ≤ c.len
    → unread (record c { len = c.len - k }) ≡ drop k (unread c)
unfolding unread
unread-drop c k h le =
    let e : (c.end - c.len) + k ≡ c.end - (c.len - k) = omega (arith, h.shrinks) in
    sym (
      drop-take k c.len (drop (c.end - c.len) c.bytes) le
      ∙ ap (take (c.len - k)) (drop-drop k (c.end - c.len) c.bytes ∙ rw e refl))

pub of_plain-InRange : (p : Plain) → p.len ≤ length p.bytes → InRange (of_plain p)
unfolding of_plain
of_plain-InRange p h = record { shrinks = omega arith; fits = h }

pub unread-of_plain : (p : Plain) → unread (of_plain p) ≡ take p.len p.bytes
unfolding of_plain unread
unread-of_plain p = let e : p.len - p.len ≡ 0 = omega arith in rw e refl
