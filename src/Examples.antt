-- ===== src/Examples.antt =====
-- A small model of the crates, over which the theorems are applied at concrete inputs: records are
-- not encrypted, and a pool counts its free slots.
pub mod Toy
pub mod ToyChunks
pub mod ToyWorker
pub mod ToyVectored
mod Sending
mod Reading
mod Serving
mod Configuring
mod Binding
mod Viewing
mod Living
mod Pumping
mod Waiting
mod Waking
