-- ===== src/Outside.antt =====
-- What the connection code takes from the crates that it is built on, as parameters: the error
-- payloads, rustls::Connection, and the pooled send buffers of o3. `Laws` says what is relied on.
pub mod Laws
pub mod Progress
pub mod Vectored
pub mod Chunks
pub mod Slots
use tls.Base.{ℕ, Bool, Option, Result, List}

pub record Outside : Type 1 where
  -- rustls::Error, io::Error, alloc::Error, bounded::Error and consume::Error.
  pub TlsError : Type 0
  pub IoError : Type 0
  pub AllocError : Type 0
  pub BoundedError : Type 0
  pub ConsumeError : Type 0
  pub is_would_block : IoError → Bool
  -- pool::Cursor, its spare room write::Spare, and pool::Pool. `view` takes a slot of the pool for
  -- an empty cursor, `give_back` is what dropping a cursor does to the pool.
  pub Cursor : Type 0
  pub Spare : Type 0
  pub Pool : Type 0
  pub as_slice : Cursor → List ℕ
  pub is_empty : Cursor → Bool
  pub spare_len : Cursor → ℕ
  pub consume_max : Cursor → ℕ → Cursor
  pub spare : Cursor → Spare
  pub remaining : Spare → ℕ
  pub append : Spare → List ℕ → ℕ × Spare
  pub commit : Spare → Cursor
  pub view : Pool → Option (Cursor × Pool)
  pub available : Pool → ℕ
  pub give_back : Cursor → Pool → Pool
  -- consume::Error::check, and the receive buffers: an exclusive Span, `Reserve`, that is appended
  -- to and frozen into a shared `Chunk`.
  pub check : ℕ → ℕ → Result ConsumeError (Unit {0})
  pub Reserve : Type 0
  pub Chunk : Type 0
  pub try_append : Reserve → List ℕ → Result ConsumeError Reserve
  pub freeze : Reserve → Chunk
  pub chunk_slice : Chunk → List ℕ
  -- rustls::Connection. `write_tls` is handed the writer's write_vectored and the writer.
  pub Native : Type 0
  pub wants_write : Native → Bool
  pub is_handshaking : Native → Bool
  pub send_close_notify : Native → Native
  pub write_tls :
      (Spare → List (List ℕ) → ℕ × Spare) → Native → Spare → Result IoError ℕ × Native × Spare
  pub write : Native → List ℕ → Result IoError ℕ × Native
  pub write_vectored : Native → List (List ℕ) → Result IoError ℕ × Native
  pub read_tls : Native → List ℕ → Result IoError ℕ × Native
  pub process_new_packets : Native → Result TlsError Bool × Native
  pub fill_buf : Native → Result IoError (List ℕ) × Native
  pub consume : Native → ℕ → Native
