-- ===== src/State/Source.antt =====
-- src/state/direct/source.rs: the plaintext of a read in place, consumed from the front. A range
-- outside the bytes, or a `usize` difference below zero, is a fault, `none`. What retains or copies
-- the backing storage belongs to other crates.
pub mod Window
use tls.Base.{
  ℕ, ◌-◌, min, Bool, true, false, ◌&&◌, Option, none, some, Result, ok, err, List, ◌==◌, leb,
  length, take, drop,
}
use tls.Outside.{Outside}
use tls.State.Input.{Plain}

pub record Cursor : Type 0 where
  pub bytes : List ℕ
  pub end : ℕ
  pub len : ℕ

pub record Head : Type 0 where
  pub cursor : Cursor
  pub remaining : ℕ

-- Cursor::new.
unfoldable pub of_plain : Plain → Cursor
of_plain plain = record { bytes = plain.bytes; end = plain.len; len = plain.len }

-- view.
unfoldable pub view : Cursor → ℕ → Option (List ℕ)
view cursor left = elim (leb left cursor.end && leb cursor.end (length cursor.bytes)) [
  | false ↦ none
  | true ↦ some (take left (drop (cursor.end - left) cursor.bytes))
]

-- Cursor::as_slice.
unfoldable pub as_slice : Cursor → Option (List ℕ)
unfolding view
as_slice cursor = view cursor cursor.len

-- Cursor::view, and view and as_ref of a Head, by the bytes that they show.
unfoldable pub cursor_view : Cursor → Option (List ℕ)
unfolding view
cursor_view cursor = view cursor cursor.len

unfoldable pub head_view : Head → Option (List ℕ)
unfolding view
head_view h = view h.cursor h.remaining

-- Cursor::head.
unfoldable pub head : Cursor → Option Head
head cursor = elim (cursor.len == 0) [
  | true ↦ none
  | false ↦ some (record { cursor = cursor; remaining = cursor.len })
]

-- Head::consume_max.
unfoldable pub consume_max : Head → ℕ → ℕ × Head
consume_max h max =
    let amount = min max h.remaining in (amount, record h { remaining = h.remaining - amount })

-- Head::commit: the count of what was consumed, and the cursor after it.
unfoldable pub commit : Head → Option (ℕ × Cursor)
commit h = elim (leb h.remaining h.cursor.len) [
  | false ↦ none
  | true ↦ some (h.cursor.len - h.remaining, record h.cursor { len = h.remaining })
]

-- Head::consume, of a prefix whose count is admitted elsewhere.
unfoldable pub consume_raw : Head → ℕ → Option Head
consume_raw h count = elim (leb count h.remaining) [
  | false ↦ none
  | true ↦ some (record h { remaining = h.remaining - count })
]

module _ ⦃o : Outside⦄ where
  -- Head::try_consume.
  unfoldable pub try_consume : Head → ℕ → Result o.ConsumeError (Unit {0}) × Head
  try_consume h amount = elim (o.check amount h.remaining) [
    | err cause ↦ (err cause, h)
    | ok _ ↦ (ok tt, record h { remaining = h.remaining - amount })
  ]
