-- ===== src/Examples.antt =====
-- Tests: each theorem with hypotheses at a concrete input.
pub mod Device
mod Wire
mod Operations
mod Establishment
mod Sharing
mod Exchanges
mod Lifetimes
mod Structs
mod Rendezvous
mod Interleavings
mod Readers
mod Buffers
mod Counting
