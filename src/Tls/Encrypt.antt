-- ===== src/Tls/Encrypt.antt =====
-- Connection::encrypt, encrypt_many and fail of src/tls/senders.rs: plaintext goes to rustls in
-- parts of at most one record, and the records go to the send buffer, while there is room. The two
-- loops differ in what one round writes and consumes, so the loop is over an `Attempts`.
pub mod Vectored
pub mod Rule
pub mod Accepts
pub mod Silent
pub mod Grows
pub mod Plaintext
pub mod Wire
pub mod Total
pub mod Failure
use tls.Base.{
  ℕ, zero, suc, Bool, true, false, not, ◌&&◌, Option, none, some, Result, ok, err, ◌==◌, List,
  length,
}
use tls.Outside.{Outside}
use tls.Outside.Progress.{Progress}
use tls.Error.{Error, io}
use tls.Staging.{max_plaintext}
use tls.Tls.{Connection, can_write, drain}
use tls.Tls.Link.{Processed, output, terminal}

-- The plaintext of a send, and what one round does with it: a write to rustls, with what it leaves.
pub record Attempts ⦃o : Outside⦄ : Type 1 where
  pub Left : Type 0
  pub left : Left → List ℕ
  pub nothing_left : Left → Bool
  pub attempt : o.Native → Left → Result o.IoError ℕ × o.Native × Left

module _ ⦃o : Outside⦄ where
  open o use {Cursor, spare_len, wants_write}

  -- Connection::fail.
  pub fail : Connection → Error → Processed (Unit {0}) × Connection
  fail conn cause = (terminal tt cause, record conn { failed = true })

  module _ (a : Attempts) where
    open a use {Left, left, nothing_left, attempt}

    -- The condition of the loop.
    abbrev pub goes_on : Connection → Cursor → Left → Bool
    goes_on conn out plain =
        not (nothing_left plain) && (not (spare_len out == 0) && not (wants_write conn.native))

    -- The loop; `none` is the end of the fuel.
    pub seal_loop :
        ℕ → Connection → Cursor → Left → Option (Processed (Unit {0}) × Connection × Cursor × Left)
    unfolding fail
    seal_loop zero conn out plain = none
    seal_loop (suc fuel) conn out plain = elim (goes_on conn out plain) [
      | false ↦ some (output tt, conn, out, plain)
      | true ↦
          let (r, native, plain') = attempt conn.native plain in
          let written : Connection = record conn { native = native } in
          elim r [
            | err cause ↦
                let (failure, conn') = fail written (io cause) in some (failure, conn', out, plain')
            | ok n ↦
                let (cause, conn', out') = drain written out in
                elim cause [
                  | some cause ↦
                      let (failure, conn'') = fail conn' cause in
                      some (failure, conn'', out', plain')
                  | none ↦ elim (n == 0) [
                    | true ↦ some (output tt, conn', out', plain')
                    | false ↦ seal_loop fuel conn' out' plain'
                  ]
                ]
          ]
    ]

    abbrev pub or_stay :
        Connection
        → Cursor
        → Left
        → Option (Processed (Unit {0}) × Connection × Cursor × Left)
        → Processed (Unit {0}) × Connection × Cursor × Left
    or_stay conn out plain none = (output tt, conn, out, plain)
    or_stay conn out plain (some r) = r

    -- The whole of either function. The fuel is one more than the bytes to send.
    pub seal : Connection → Cursor → Left → Processed (Unit {0}) × Connection × Cursor × Left
    seal conn out plain = elim (can_write conn) [
      | false ↦ (output tt, conn, out, plain)
      | true ↦ or_stay conn out plain (seal_loop (suc (length (left plain))) conn out plain)
    ]

module _ ⦃d : Progress⦄ where
  open d use {Plain, Part, take_part, part_slice, amount, commit_part, give_up, prefix}

  -- The part is committed if rustls took it whole, else the prefix that it took.
  pub commit_written : Part → ℕ → Plain
  commit_written part n = elim (n == length (part_slice part)) [
    | true ↦ commit_part part
    | false ↦
        let used = prefix n (amount part) in
        let plain = give_up part in
        elim (used == 0) [ true ↦ plain | false ↦ commit_part (take_part plain used) ]
  ]

module _ ⦃o : Outside⦄ ⦃d : Progress⦄ where
  open o use {Cursor, Native, IoError, write}
  open d use {Plain, rest, is_empty, take_part, part_slice, give_up}

  -- A round of Connection::encrypt.
  unfoldable pub write_part : Native → Plain → Result IoError ℕ × Native × Plain
  unfolding commit_written
  write_part native plain =
      let part = take_part plain max_plaintext in
      let (r, native') = write native (part_slice part) in
      (r, native', elim r [ err _ ↦ give_up part | ok n ↦ commit_written part n ])

  abbrev pub one : Attempts
  one = record { Left = Plain; left = rest; nothing_left = is_empty; attempt = write_part }

  pub encrypt_loop :
      ℕ → Connection → Cursor → Plain → Option (Processed (Unit {0}) × Connection × Cursor × Plain)
  unfolding seal_loop
  encrypt_loop fuel conn out plain = seal_loop one fuel conn out plain

  -- Connection::encrypt.
  pub encrypt : Connection → Cursor → Plain → Processed (Unit {0}) × Connection × Cursor × Plain
  unfolding seal
  encrypt conn out plain = seal one conn out plain
