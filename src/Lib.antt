-- ===== src/Lib.antt =====
-- TLS streams over rustls (the crate of src): a worker's connections encrypt what they send into
-- pooled buffers and decrypt what they receive in place. Plaintext to send goes to rustls part by
-- part, and the records that rustls queues go to the connection's send buffer while there is room;
-- the socket takes from the front of that buffer. Received bytes are fed to rustls, and the
-- plaintext is written over the bytes already consumed, or to a receive slot.
--
-- What belongs to rustls, o3 and dope is a parameter: Outside holds the operations, its children
-- Laws, Progress, Vectored, Chunks and Slots the contracts that theorems take as hypotheses, and
-- every other part that has one declares its own beside its theorems. Rust's mutable borrows are
-- arguments and results, a dropped value is written out as what dropping does to its pool, and
-- bytes are lists of numbers.
--
-- Files, by the part of src that they model:
-- - Error, Staging: src/error.rs, src/staging.rs.
-- - State: src/state/mod.rs, with State/Output, State/Drain and State/Moved for its theorems.
-- - State/Staged, State/Buffers: src/state/staged.rs, src/state/buffers.rs.
-- - State/Input: src/state/direct/input.rs and the Plain of src/state/direct/mod.rs.
-- - State/Source: src/state/direct/source.rs.
-- - Tls: src/tls/mod.rs; Tls/Link holds the types that the operations report with.
-- - Tls/Encrypt, Tls/Senders: src/tls/senders.rs, with Tls/Encrypt/Vectored for encrypt_many;
--   Tls/Senders/Pump lets the socket take what is flushed, by turns.
-- - Tls/Protocol: the requests of src/tls/protocol.rs to the send path in any order, with the
--   specification that they refine, a pipe of bytes, in Tls/Protocol/Pipe.
-- - Tls/Receive, Tls/Receive/Stream: src/tls/receive/mod.rs, raw.rs and stream.rs,
--   with what a stream shows in Stream/View, what is copied of it in Stream/Retain, and its calls in
--   any order in Stream/Queue, where a stream is a queue of bytes.
-- - Tls/Waiters, Tls/Policy: src/tls/receive/waiters.rs and policy.rs, with `finish` of
--   src/tls/protocol.rs. Waiters/Turns takes the two lanes of the queue as lists, oldest first,
--   and Policy/Woken follows what a receive frees to the waiters that it retries.
-- - Tls/Session: the requests, the reads and the eof of a connection in any order, with the policy
--   that admits its reads. What every event of such a life keeps is put together from what every
--   step of a part keeps: the modules named Rule, of Senders, State/Input, Receive, Policy and
--   Session. Session/Life sums over the events what leaves or enters by each. Session/Fed is about the
--   ciphertext that the reads of a life give to rustls.
-- - Tls/Endpoint: src/tls/endpoint, the sizes of the pools, the binding of a worker in
--   Endpoint/Bootstrap, where other code may bind the same store while the pools are made, and the
--   opening of connections in Endpoint/Open, with the opening that is cached in Open/Cached.
-- - Tls/Roles: src/tls/roles/mod.rs and src/tls/client.rs, with the configurations that the roles
--   are built of in Roles/Configs.
-- - Config, Config/Raw: src/config/mod.rs and src/config/raw.rs; Roots: src/roots/mod.rs.
-- - Examples: a small model of the crates, and the theorems at concrete inputs.
--
-- Fuel: the loop of `drain` has one more than the room of the buffer, that of `encrypt` one more
-- than the bytes to send, that of a read one more than the bytes of the input, and `copy_plain`
-- 2 * used + 3 rounds: each round but the last uses up a byte of the room or of the input.
--
-- Not modelled: the parsing and signing that AWS-LC and rustls do for src/config, that the
-- overwriting of a seed is volatile, the sealed and contract types, which only restrict who may
-- name a trait, and what retaining or copying charges to a budget of o3.
pub mod Base
pub mod Outside
pub mod Error
pub mod State
pub mod Staging
pub mod Tls
pub mod Config
pub mod Roots
mod Examples
