-- ===== src/State/Input/Read.antt =====
-- The loop of one read, as a whole.
use tls.Base.{
  ℕ, zero, suc, ◌+◌, ◌*◌, ◌≤◌, ◌<◌, ◌≡◌, refl, sym, ap, subst, ◌∙◌, inl, inr, Bool-cases,
  Result-cases, Option-cases, true, not, ◌&&◌, Option, none, some, Result, and, List, [], ◌==◌, leb,
  length, drop, arith, length-drop, drop-drop,
}
use tls.Outside.{Outside}
use tls.Outside.Laws.{ReserveLaws, ReadLaws}
use tls.Error.{Error}
use tls.Tls.{Connection}
use tls.State.Staged.{Staged, ready, kept, gone}
use tls.State.Input.{Input, Round, copy_round, copy_loop, copy_plain, process, read_loop}
use tls.State.Input.Place.{measure, Inv, Good}
use tls.State.Input.Rounds.{copy_round-Good}

module _ ⦃o : Outside⦄ where
  -- The bytes of a published chunk.
  abbrev pub chunk_bytes : Option o.Chunk → List ℕ
  chunk_bytes none = []
  chunk_bytes (some chunk) = o.chunk_slice chunk

  measure-bound : (input : Input) (s : Staged) → measure input s < 2 * input.used + 3
  measure-bound input (ready r) = omega arith
  measure-bound input (kept c) = omega arith
  measure-bound input gone = omega arith

module _ ⦃o : Outside⦄ (reserves : ReserveLaws) (reads : ReadLaws) (base : List ℕ)
    (whole : List ℕ) where
  open o use {Native, read_tls}
  open reads use {delivered}

  abbrev pub Copied : Input → Option (Result Error (Unit {0}) × Native × Input × Staged) → Type 0
  Copied input none = ⊥
  Copied input (some (r, n, input', s)) =
      Inv reserves reads base whole n input' s × (input'.used ≡ input.used)

  abbrev Loops : ℕ → Type 0
  Loops fuel =
      (n : Native) (input : Input) (s : Staged)
      → Inv reserves reads base whole n input s
      → measure input s < fuel
      → Copied input (copy_loop fuel n input s)

  Copied-same :
      (input i : Input) (r : Option (Result Error (Unit {0}) × Native × Input × Staged))
      → i.used ≡ input.used
      → Copied i r
      → Copied input r
  Copied-same input i none e v = v
  Copied-same input i (some (r, n, input', s)) e v = (v.0, v.1 ∙ e)

  go_round :
      (fuel : ℕ) (n : Native) (input : Input) (s : Staged)
      → Loops fuel
      → measure input s < suc fuel
      → (r : Option Round) → Good reserves reads base whole input s r
      → copy_round n input s ≡ r
      → Copied input (copy_loop (suc fuel) n input s)
  unfolding copy_loop
  go_round fuel n input s ih h none g e = absurd g
  go_round fuel n input s ih h (some (some r, n', i, s')) g e = rw (e, copy_loop) (g.0, g.1)
  go_round fuel n input s ih h (some (none, n', i, s')) g e =
      rw (e, copy_loop) (Copied-same input i _ g.1 (ih n' i s' g.0 (omega (arith, g.2 refl))))

  copy_loop-Copied : (fuel : ℕ) → Loops fuel
  copy_loop-Copied zero n input s v h = absurd (omega arith)
  copy_loop-Copied (suc fuel) n input s v h =
      go_round fuel n input s (copy_loop-Copied fuel) h (copy_round n input s)
        (copy_round-Good reserves reads base whole n input s v) refl

  pub copy_plain-Copied :
      (n : Native) (input : Input) (s : Staged)
      → Inv reserves reads base whole n input s
      → Copied input (copy_plain n input s)
  unfolding copy_plain
  copy_plain-Copied n input s v = copy_loop-Copied _ n input s v (measure-bound input s)

  pub process-delivered :
      (conn : Connection) → delivered (process conn).1.native ≡ delivered conn.native
  unfolding process
  process-delivered conn = ground (
    arith,
    reads.process-delivered conn.native,
    reads.write-delivered (o.process_new_packets conn.native).1 [],
  )

  abbrev pub Reads : Option (Result Error (Unit {0}) × Connection × Input × Staged) → Type 0
  Reads none = ⊥
  Reads (some (r, conn, input, s)) = Inv reserves reads base whole conn.native input s

  pub refilled :
      (n n' : Native) (input : Input) (s : Staged)
      → Inv reserves reads base whole n input s
      → delivered n' ≡ delivered n
      → Inv reserves reads base whole n' input s
  refilled n n' input s v same = record {
    fits = v.fits;
    within = v.within;
    extent = v.extent;
    unread = v.unread;
    fresh = v.fresh;
    in_order = same ∙ v.in_order;
  }

  -- More ciphertext has been consumed.
  pub advance-Inv :
      (n n' : Native) (input : Input) (s : Staged) (count : ℕ)
      → Inv reserves reads base whole n input s
      → delivered n' ≡ delivered n
      → count ≤ length (drop input.used input.bytes)
      → Inv reserves reads base whole n' (record input { used = input.used + count }) s
  advance-Inv n n' input s count v same h = record {
    fits = omega (arith, v.fits);
    within = omega (arith, v.within, length-drop input.used input.bytes);
    extent = v.extent;
    unread =
        sym (drop-drop count input.used input.bytes)
        ∙ ap (drop count) v.unread
        ∙ drop-drop count input.used whole;
    fresh = v.fresh;
    in_order = same ∙ v.in_order;
  }

  abbrev pub Reading : ℕ → Type 0
  Reading fuel =
      (conn : Connection) (input : Input) (s : Staged)
      → Inv reserves reads base whole conn.native input s
      → length input.bytes < input.used + fuel
      → Reads (read_loop fuel conn input s)

  pub read_loop-Reads : (fuel : ℕ) → Reading fuel
  unfolding read_loop
  read_loop-Reads zero conn input s v h = absurd (omega (arith, v.within))
  read_loop-Reads (suc fuel) conn input s v h =
      let inside : leb input.used (length input.bytes) ≡ true = ground (arith, v.within) in
      let tail = drop input.used input.bytes in
      elim (Bool-cases
        (not (input.used == length input.bytes) && (not conn.peer_closed && not conn.failed))) [
          | inr stop ↦ rw (stop, read_loop) v
          | inl go ↦ elim (Result-cases (read_tls conn.native tail).0) [
            | inr (c, e) ↦
                rw (go, inside, e, read_loop)
                  (refilled conn.native _ input s v (reads.read_tls-delivered conn.native tail))
            | inl (count, e) ↦
                let conn' : Connection = record conn { native = (read_tls conn.native tail).1 } in
                let input' : Input = record input { used = input.used + count } in
                let v' =
                  advance-Inv conn.native conn'.native input s count v
                    (reads.read_tls-delivered conn.native tail)
                    (reads.read_tls-count conn.native tail e) in
                elim (Bool-cases (count == 0)) [
                  | inl nothing ↦ rw (go, inside, e, nothing, read_loop) v'
                  | inr some_bytes ↦
                      let (p, after) = process conn' in
                      let w =
                        refilled conn'.native after.native input' s v' (process-delivered conn') in
                      let copied = copy_plain-Copied after.native input' s w in
                      elim (Option-cases (copy_plain after.native input' s)) [
                        | inl fault ↦ absurd (subst (Copied input') fault copied)
                        | inr ((c, native, input2, s2), f) ↦
                            let u = subst (Copied input') f copied in
                            elim (Result-cases (and p c)) [
                              | inr (x, g) ↦ rw (go, inside, e, some_bytes, f, g, read_loop) u.0
                              | inl (_, g) ↦
                                  rw (go, inside, e, some_bytes, f, g, read_loop)
                                    (read_loop-Reads fuel (record after { native = native }) input2
                                      s2 u.0
                                      (ground (arith, v.extent, u.0.extent, u.1, some_bytes, h)))
                            ]
                      ]
                ]
          ]
        ]
