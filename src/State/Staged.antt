-- ===== src/State/Staged.antt =====
-- src/state/staged.rs and Reserve::copy of src/state/buffers.rs: the receive buffer of one read,
-- which is published at most once.
use tls.Base.{ℕ, Option, Result, ok, err, List}
use tls.Outside.{Outside}
use tls.Error.{Error, receive, consume, invalid_buffer_progress}

-- buffers::Release.
pub data Release : Type 0 where
  released retained : Release

module _ ⦃o : Outside⦄ where
  open o use {Reserve, Chunk, try_append, freeze}

  pub data Staged : Type 0 where
    ready : Reserve → Staged
    kept : Chunk → Staged
    gone : Staged

  -- staged::Output.
  pub record Output : Type 0 where
    pub chunk : Option Chunk
    pub control : Result Error (Unit {0})
    pub release : Release

  -- Reserve::copy.
  pub copy_reserve : Reserve → List ℕ → Result Error Chunk
  copy_reserve recv plain = elim (try_append recv plain) [
    | err cause ↦ err (consume receive cause)
    | ok recv' ↦ ok (freeze recv')
  ]

  -- Staged::copy: a copy that fails leaves the receive buffer given up.
  unfoldable pub copy : Staged → List ℕ → Result Error (Unit {0}) × Staged
  unfolding copy_reserve
  copy (ready recv) plain = elim (copy_reserve recv plain) [
    | err cause ↦ (err cause, gone)
    | ok chunk ↦ (ok tt, kept chunk)
  ]
  copy (kept chunk) plain = (err invalid_buffer_progress, kept chunk)
  copy gone plain = (err invalid_buffer_progress, gone)
