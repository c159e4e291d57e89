-- ===== src/State/Input/Place.antt =====
-- The invariant of a read, and that writing plaintext behind the prefix or copying it to the
-- receive buffer keeps it.
use tls.Base.{
  ℕ, ◌+◌, ◌-◌, ◌≤◌, ◌<◌, ◌≡◌, refl, ap, ◌∙◌, inl, inr, Result-cases, true, Option, none, some, ok,
  err, List, [], ◌++◌, leb, length, take, drop, arith, append_assoc, append-nil, sym,
}
use tls.Outside.{Outside}
use tls.Outside.Laws.{ReserveLaws, ReadLaws}
use tls.Error.{Error, receive}
use tls.Tls.{Connection}
use tls.State.Staged.{Staged, ready, kept, gone, copy, copy_reserve}
use tls.State.Input.{Input, Round, overwrite, place}
use tls.State.Input.Bytes.{length-overwrite, take-overwrite, drop-overwrite}

module _ ⦃o : Outside⦄ where
  open o use {Native, Chunk, Reserve, chunk_slice, freeze}

  -- The plaintext that has been copied to the receive buffer, which is empty until then.
  abbrev pub staged_bytes : Staged → List ℕ
  staged_bytes (ready _) = []
  staged_bytes (kept chunk) = chunk_slice chunk
  staged_bytes gone = []

  abbrev pub IsFresh : Staged → Type 0
  IsFresh (ready r) = chunk_slice (freeze r) ≡ []
  IsFresh (kept _) = Unit
  IsFresh gone = Unit

  -- What the rounds use up: room behind the prefix, and the receive buffer.
  abbrev pub measure : Input → Staged → ℕ
  measure input (ready _) = (input.used - input.len) + (input.used + 2)
  measure input (kept _) = input.used - input.len
  measure input gone = input.used - input.len

module _ ⦃o : Outside⦄ (reserves : ReserveLaws) (reads : ReadLaws) (base : List ℕ)
    (whole : List ℕ) where
  open o use {
    Native, Reserve, check, chunk_slice, freeze, fill_buf, consume, is_would_block, try_append,
  }
  open reads use {delivered}

  -- `whole` is the input at the start of the read, and `base` the plaintext delivered before it.
  pub record Inv (n : Native) (input : Input) (staged : Staged) : Type 0 where
    pub fits : input.len ≤ input.used
    pub within : input.used ≤ length input.bytes
    pub extent : length input.bytes ≡ length whole
    pub unread : drop input.used input.bytes ≡ drop input.used whole
    pub fresh : IsFresh staged
    pub in_order : delivered n ≡ base ++ (staged_bytes staged ++ take input.len input.bytes)

  abbrev pub Good : Input → Staged → Option Round → Type 0
  Good input staged none = ⊥
  Good input staged (some (done, n, input', staged')) =
      Inv n input' staged'
      × (input'.used ≡ input.used)
      × (done ≡ none → measure input' staged' < measure input staged)

  -- The next bytes of the reader: consuming them delivers them.
  abbrev pub Shows : Native → List ℕ → Type 0
  Shows n plain = delivered (consume n (length plain)) ≡ delivered n ++ plain

  placed : Input → List ℕ → Input
  placed input plain = record input {
    bytes = overwrite input.bytes input.len plain;
    len = input.len + length plain;
  }

  measure-placed :
      (input : Input) (staged : Staged) (plain : List ℕ)
      → 0 < length plain
      → input.len + length plain ≤ input.used
      → measure (placed input plain) staged < measure input staged
  unfolding placed
  measure-placed input (ready r) plain pos room = omega arith
  measure-placed input (kept c) plain pos room = omega arith
  measure-placed input gone plain pos room = omega arith

  placed-Inv :
      (n : Native) (input : Input) (staged : Staged) (plain : List ℕ)
      → Inv n input staged
      → Shows n plain
      → input.len + length plain ≤ input.used
      → Inv (consume n (length plain)) (placed input plain) staged
  unfolding placed
  placed-Inv n input staged plain v shows room = record {
    fits = room;
    within = omega (arith, v.within, length-overwrite input.bytes input.len plain inside);
    extent = length-overwrite input.bytes input.len plain inside ∙ v.extent;
    unread = drop-overwrite input.bytes input.len plain inside input.used room ∙ v.unread;
    fresh = v.fresh;
    in_order =
        rw (shows, v.in_order, take-overwrite input.bytes input.len plain inside)
          (append_assoc base _ plain ∙ ap (◌++◌ base) (append_assoc (staged_bytes staged) _ plain));
  }
    where
      inside : input.len + length plain ≤ length input.bytes
      inside = omega (arith, v.within)

  pub place-Good :
      (n : Native) (input : Input) (staged : Staged) (plain : List ℕ) (m : Input) (s : Staged)
      → Inv n input staged
      → Shows n plain
      → 0 < length plain
      → input.len + length plain ≤ input.used
      → input.used ≡ m.used
      → measure input staged ≤ measure m s
      → Good m s (place n input staged plain)
  unfolding place placed
  place-Good n input staged plain m s v shows pos room same le =
      rw (inside, place)
        (
          placed-Inv n input staged plain v shows room,
          same,
          λ _. omega (arith, measure-placed input staged plain pos room, le),
        )
    where
      inside : leb (input.len + length plain) (length input.bytes) ≡ true
      inside = ground (arith, v.within, room)

  copied :
      (r : Reserve) (plain : List ℕ) {r' : Reserve}
      → try_append r plain ≡ ok r'
      → copy (ready r) plain ≡ (ok tt, kept (freeze r'))
  unfolding copy
  copied r plain f = rw (f, copy, copy_reserve) refl

  refused :
      (r : Reserve) (plain : List ℕ) {c : o.ConsumeError}
      → try_append r plain ≡ err c
      → copy (ready r) plain ≡ (err (Error.consume receive c), gone)
  unfolding copy
  refused r plain f = rw (f, copy, copy_reserve) refl

  pub copy-ok :
      (i j : Input) (s : Staged) (plain : List ℕ)
      → IsFresh s
      → (copy s plain).0 ≡ ok tt
      → (staged_bytes s ≡ [])
        × (staged_bytes (copy s plain).1 ≡ plain)
        × IsFresh (copy s plain).1
        × (measure j (copy s plain).1 ≡ j.used - j.len)
        × (measure i s ≡ (i.used - i.len) + (i.used + 2))
  unfolding copy
  copy-ok i j (ready r) plain fresh e = elim (Result-cases (try_append r plain)) [
    | inl (r', f) ↦
        rw (copied r plain f)
          (refl, reserves.try_append-ok r plain f ∙ ap (λ xs. xs ++ plain) fresh, tt, refl, refl)
    | inr (c, f) ↦ absurd (cc (e, ap (λ x. x.0) (refused r plain f)))
  ]
  copy-ok i j (kept c) plain fresh e = absurd (ground arith)
  copy-ok i j gone plain fresh e = absurd (ground arith)

  pub copy-err :
      (s : Staged) (plain : List ℕ) (e : Error)
      → IsFresh s
      → (copy s plain).0 ≡ err e
      → (staged_bytes (copy s plain).1 ≡ staged_bytes s) × IsFresh (copy s plain).1
  unfolding copy
  copy-err (ready r) plain e fresh h = elim (Result-cases (try_append r plain)) [
    | inl (r', f) ↦ absurd (cc (h, ap (λ x. x.0) (copied r plain f)))
    | inr (c, f) ↦ rw (refused r plain f) (refl, tt)
  ]
  copy-err (kept c) plain e fresh h = (refl, tt)
  copy-err gone plain e fresh h = (refl, tt)

module _ ⦃o : Outside⦄ (reserves : ReserveLaws) (reads : ReadLaws) where
  -- A read starts with nothing consumed and nothing shown.
  pub start-Inv :
      (conn : Connection) (bytes : List ℕ) (recv : o.Reserve)
      → o.chunk_slice (o.freeze recv) ≡ []
      → Inv reserves reads
          (reads.delivered conn.native)
          bytes
          conn.native
          (record { bytes = bytes; used = 0; len = 0 })
          (ready recv)
  start-Inv conn bytes recv fresh = record {
    fits = omega arith;
    within = omega arith;
    extent = refl;
    unread = refl;
    fresh = fresh;
    in_order = sym (append-nil (reads.delivered conn.native));
  }
