-- ===== src/State/Input.antt =====
-- src/state/direct/input.rs: one read. Ciphertext is fed to rustls, and the plaintext that it gives
-- back is written over the ciphertext already consumed, or copied to the receive buffer.
-- An unchecked slice out of range, or a `usize` difference below zero, is a fault, `none`.
pub mod Bytes
pub mod Place
pub mod Rounds
pub mod Read
pub mod Delivery
pub mod Ended
pub mod Fed
pub mod Copying
pub mod Rule
use tls.Base.{
  ℕ, zero, suc, ◌+◌, ◌-◌, ◌*◌, min, Bool, true, false, not, ◌&&◌, ◌||◌, Option, none, some, Result,
  ok, err, and, List, [], ◌++◌, ◌==◌, leb, length, take, drop, is_nil,
}
use tls.Outside.{Outside}
use tls.Error.{Error, from_tls, io, invalid_buffer_progress}
use tls.Staging.{max_plaintext}
use tls.State.Staged.{Staged, ready, kept, gone, copy, Output, released, retained}
use tls.Tls.{Connection}

pub record Input : Type 0 where
  pub bytes : List ℕ
  pub used : ℕ
  pub len : ℕ

-- direct::Plain.
pub record Plain : Type 0 where
  pub bytes : List ℕ
  pub len : ℕ

-- `src` written over `bytes` from `start` on.
pub overwrite : List ℕ → ℕ → List ℕ → List ℕ
overwrite bytes start src = take start bytes ++ (src ++ drop (start + length src) bytes)

module _ ⦃o : Outside⦄ where
  open o use {
    Native, Reserve, check, fill_buf, is_would_block, read_tls, process_new_packets, write,
    is_handshaking, consume,
  }

  -- What one round of `copy_plain` leaves: with a result the loop has returned.
  abbrev pub Round : Type 0
  Round = Option (Result Error (Unit {0})) × Native × Input × Staged

  -- The end of a round: the plaintext goes behind the prefix.
  pub place : Native → Input → Staged → List ℕ → Option Round
  place native input staged plain =
      let end = input.len + length plain in
      elim (leb end (length input.bytes)) [
        | false ↦ none
        | true ↦ some (
          none,
          consume native (length plain),
          record input { bytes = overwrite input.bytes input.len plain; len = end },
          staged,
        )
      ]

  -- The prefix does not leave room: its first record goes to the receive buffer.
  pub compact : Native → Input → Staged → List ℕ → Option Round
  unfolding place
  compact native input staged plain = elim (leb input.len (length input.bytes)) [
    | false ↦ none
    | true ↦
        let prior = take input.len input.bytes in
        let prefix = min (length prior) max_plaintext in
        let (r, staged') = copy staged (take prefix prior) in
        elim r [
          | err cause ↦ some (some (err cause), native, input, staged')
          | ok _ ↦
              let input' : Input = record input {
                bytes = overwrite input.bytes 0 (drop prefix prior);
                len = input.len - prefix;
              } in
              elim (check (length plain) (input'.used - input'.len)) [
                | err _ ↦ some (some (err invalid_buffer_progress), native, input', staged')
                | ok _ ↦ place native input' staged' plain
              ]
        ]
  ]

  -- A round whose reader shows `plain`, which is not empty.
  pub take_plain : Native → Input → Staged → List ℕ → Option Round
  take_plain native input staged plain = elim (leb input.len input.used) [
    | false ↦ none
    | true ↦ elim (check (length plain) (input.used - input.len)) [
      | ok _ ↦ place native input staged plain
      | err _ ↦ elim (input.len == 0) [
        | false ↦ compact native input staged plain
        | true ↦
            let (r, staged') = copy staged plain in
            elim r [
              | err cause ↦ some (some (err cause), native, input, staged')
              | ok _ ↦ some (none, consume native (length plain), input, staged')
            ]
      ]
    ]
  ]

  -- A round of `copy_plain`.
  pub copy_round : Native → Input → Staged → Option Round
  copy_round native input staged =
      let (filled, native') = fill_buf native in
      elim filled [
        | err cause ↦ elim (is_would_block cause) [
          | true ↦ some (some (ok tt), native', input, staged)
          | false ↦ some (some (err (io cause)), native', input, staged)
        ]
        | ok plain ↦ elim (is_nil plain) [
          | true ↦ some (some (ok tt), native', input, staged)
          | false ↦ take_plain native' input staged plain
        ]
      ]

  pub copy_loop :
      ℕ → Native → Input → Staged → Option (Result Error (Unit {0}) × Native × Input × Staged)
  copy_loop zero native input staged = none
  copy_loop (suc fuel) native input staged = elim (copy_round native input staged) [
    | none ↦ none
    | some (done, native', input', staged') ↦ elim done [
      | some r ↦ some (r, native', input', staged')
      | none ↦ copy_loop fuel native' input' staged'
    ]
  ]

  -- Input::copy_plain. A round shrinks the room behind the prefix or uses up the receive buffer.
  pub copy_plain :
      Native → Input → Staged → Option (Result Error (Unit {0}) × Native × Input × Staged)
  copy_plain native input staged = copy_loop (2 * input.used + 3) native input staged

  -- Input::process.
  pub process : Connection → Result Error (Unit {0}) × Connection
  process conn =
      let (r, native) = process_new_packets conn.native in
      elim r [
        | err cause ↦ (err (from_tls cause), record conn { native = native })
        | ok closed ↦
            let conn' : Connection = record conn {
              native = native;
              peer_closed = conn.peer_closed || closed;
            } in
            elim (not conn'.local_closed && not (is_handshaking native)) [
              | false ↦ (ok tt, conn')
              | true ↦
                  let (w, native') = write native [] in
                  let conn'' : Connection = record conn' { native = native' } in
                  elim w [
                    | err cause ↦ (err (io cause), conn'')
                    | ok n ↦ elim (check n 0) [
                      | ok _ ↦ (ok tt, conn'')
                      | err _ ↦ (err invalid_buffer_progress, conn'')
                    ]
                  ]
            ]
      ]

  -- The loop of Input::owned. `and` has its second operand evaluated, so `copy_plain` runs also
  -- after `process` has failed.
  pub read_loop :
      ℕ
      → Connection
      → Input
      → Staged
      → Option (Result Error (Unit {0}) × Connection × Input × Staged)
  read_loop zero conn input staged = none
  read_loop (suc fuel) conn input staged =
      elim (not (input.used == length input.bytes) && (not conn.peer_closed && not conn.failed)) [
        | false ↦ some (ok tt, conn, input, staged)
        | true ↦ elim (leb input.used (length input.bytes)) [
          | false ↦ none
          | true ↦
              let (r, native) = read_tls conn.native (drop input.used input.bytes) in
              let conn' : Connection = record conn { native = native } in
              elim r [
                | err cause ↦ some (err (io cause), conn', input, staged)
                | ok count ↦
                    let input' : Input = record input { used = input.used + count } in
                    elim (count == 0) [
                      | true ↦ some (ok tt, conn', input', staged)
                      | false ↦
                          let (p, conn'') = process conn' in
                          elim (copy_plain conn''.native input' staged) [
                            | none ↦ none
                            | some (c, native', input'', staged') ↦
                                let conn3 : Connection = record conn'' { native = native' } in
                                elim (and p c) [
                                  | err cause ↦ some (err cause, conn3, input'', staged')
                                  | ok _ ↦ read_loop fuel conn3 input'' staged'
                                ]
                          ]
                    ]
              ]
        ]
      ]

  -- The end of Input::owned: an error fails the connection, and an unused receive buffer is dropped.
  pub publish : Result Error (Unit {0}) × Connection × Input × Staged → Output × Plain × Connection
  publish (result, conn, input, staged) = (
    elim staged [
      | ready _ ↦ record { chunk = none; control = result; release = released }
      | kept chunk ↦ record { chunk = some chunk; control = result; release = retained }
      | gone ↦ record { chunk = none; control = result; release = released }
    ],
    record { bytes = input.bytes; len = input.len },
    elim result [ ok _ ↦ conn | err _ ↦ record conn { failed = true } ],
  )

  -- Input::owned.
  pub owned : Connection → List ℕ → Reserve → Option (Output × Plain × Connection)
  owned conn bytes recv =
      elim (read_loop (suc (length bytes)) conn (record { bytes = bytes; used = 0; len = 0 })
        (ready recv)) [ none ↦ none | some r ↦ some (publish r) ]

-- Plain::into_chunk.
unfoldable pub into_chunk : Plain → Option (List ℕ)
into_chunk plain = elim (plain.len == 0) [ true ↦ none | false ↦ some (take plain.len plain.bytes) ]
