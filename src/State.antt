-- ===== src/State.antt =====
-- src/state/mod.rs: the writer that rustls fills, and the loop that empties rustls into a buffer.
pub mod Output
pub mod Drain
pub mod Causes
pub mod Moved
pub mod Progress
pub mod Staged
pub mod Buffers
pub mod Input
pub mod Source
use tls.Base.{
  ℕ, zero, suc, ◌+◌, Bool, true, false, not, Option, none, some, Result, ok, err, List, [], ◌∷◌,
  ◌==◌, length,
}
use tls.Outside.{Outside}
use tls.Error.{Error, io, invalid_buffer_progress}

module _ ⦃o : Outside⦄ where
  open o use {
    Cursor, Spare, Native, spare_len, spare, remaining, append, commit, wants_write, write_tls,
  }

  -- Output::write_vectored: the chunks in turn, up to the first that does not fit whole.
  -- `written` is the sum so far.
  pub write_chunks : ℕ → Spare → List (List ℕ) → ℕ × Spare
  write_chunks written s [] = (written, s)
  write_chunks written s (bytes ∷ chunks) =
      let (n, s') = append s bytes in
      let rest = write_chunks (written + n) s' chunks in
      elim (n == length bytes) [ true ↦ rest | false ↦ (written + n, s') ]

  pub write_all_vectored : Spare → List (List ℕ) → ℕ × Spare
  unfolding write_chunks
  write_all_vectored s chunks = write_chunks 0 s chunks

  abbrev Drained : Type 0
  Drained = Result Error (Unit {0}) × Native × Spare

  -- The loop of `drain`; `none` is the end of the fuel.
  pub drain_loop : ℕ → Native → Spare → Option (Result Error (Unit {0}) × Native × Spare)
  drain_loop zero conn output = none
  drain_loop (suc fuel) conn output = elim (remaining output == 0) [
    | true ↦ some (ok tt, conn, output)
    | false ↦
        let (r, conn', output') = write_tls write_all_vectored conn output in
        elim r [
          | err cause ↦ some (err (io cause), conn', output')
          | ok n ↦ elim (n == 0) [
            | true ↦ some (err invalid_buffer_progress, conn', output')
            | false ↦ elim (wants_write conn') [
              | false ↦ some (ok tt, conn', output')
              | true ↦ drain_loop fuel conn' output'
            ]
          ]
        ]
  ]

  -- What follows the loop. `none` is the end of its fuel.
  pub settled :
      Native
      → Spare
      → Option (Result Error (Unit {0}) × Native × Spare)
      → Result Error (Unit {0}) × Native × Cursor
  settled conn output none = (err invalid_buffer_progress, conn, commit output)
  settled conn output (some (r, conn', output')) = (r, conn', commit output')

  pub drain : Native → Cursor → Result Error (Unit {0}) × Native × Cursor
  unfolding settled
  drain conn out = elim (wants_write conn) [
    | false ↦ (ok tt, conn, out)
    | true ↦ settled conn (spare out) (drain_loop (suc (spare_len out)) conn (spare out))
  ]
