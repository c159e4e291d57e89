-- ===== src/Tls/Encrypt/Vectored.antt =====
-- A round of Connection::encrypt_many: the chunks of a part are gathered, one for each descriptor,
-- and written with one call.
pub mod Gathered
pub mod Silent
pub mod Grows
use tls.Base.{
  ℕ, zero, suc, Bool, true, false, Option, none, some, Result, ok, err, ◌==◌, List, [], ◌∷◌,
}
use tls.Outside.{Outside}
use tls.Outside.Vectored.{Vectored}
use tls.Staging.{max_plaintext}
use tls.Tls.{Connection}
use tls.Tls.Link.{Processed}
use tls.Tls.Encrypt.{Attempts, seal}

module _ ⦃v : Vectored⦄ where
  open v use {
    descriptors, Many, Parts, take_parts, amount, next_chunk, commit_parts, give_up, prefix,
  }

  -- The loop that fills the slices, over the vacant descriptors.
  pub gather : ℕ → Parts → List (List ℕ) × Parts
  gather zero parts = ([], parts)
  gather (suc vacant) parts = elim (next_chunk parts) [
    | none ↦ ([], parts)
    | some (chunk, parts') ↦
        let (slices, parts'') = gather vacant parts' in (chunk ∷ slices, parts'')
  ]

  -- `for _ in prefix.take() {}`; a part has a chunk for each descriptor at most.
  pub visit : ℕ → Parts → Parts
  visit zero parts = parts
  visit (suc fuel) parts = elim (next_chunk parts) [
    | none ↦ parts
    | some (chunk, parts') ↦ visit fuel parts'
  ]

  -- What follows a write that took `n` bytes of a part of `limit` bytes.
  pub commit_many : Parts → ℕ → ℕ → Many
  unfolding visit
  commit_many parts limit n = elim (n == limit) [
    | true ↦ commit_parts parts
    | false ↦
        let used = prefix n limit in
        let plain = give_up parts in
        elim (used == 0) [
          | true ↦ plain
          | false ↦ commit_parts (visit descriptors (take_parts plain used))
        ]
  ]

module _ ⦃o : Outside⦄ ⦃v : Vectored⦄ where
  open o use {Cursor, Native, IoError, write_vectored}
  open v use {descriptors, Many, many_rest, is_empty, take_parts, amount, give_up}

  -- A round of Connection::encrypt_many.
  unfoldable pub write_parts : Native → Many → Result IoError ℕ × Native × Many
  unfolding gather commit_many
  write_parts native plain =
      let parts = take_parts plain max_plaintext in
      let (slices, parts') = gather descriptors parts in
      let (r, native') = write_vectored native slices in
      (r, native', elim r [ err _ ↦ give_up parts' | ok n ↦ commit_many parts' (amount parts) n ])

  abbrev pub many : Attempts
  many = record { Left = Many; left = many_rest; nothing_left = is_empty; attempt = write_parts }

  -- Connection::encrypt_many.
  pub encrypt_many : Connection → Cursor → Many → Processed (Unit {0}) × Connection × Cursor × Many
  encrypt_many conn out plain = seal many conn out plain
