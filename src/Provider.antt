-- ===== src/Provider.antt =====
-- src/providers.rs: the sharing side.
pub mod State
pub mod Tuples
pub mod Sharing
pub mod Catalog
pub mod Registry
pub mod Phases
pub mod Race
pub mod Service
pub mod Joining
pub mod Waiting
pub mod Evolving
pub mod System
pub mod Sound
pub mod Lifetime
pub mod Serving
pub mod Stopping
pub mod Dropping
pub mod Refusing
pub mod Threads
pub mod Settled
pub mod Interleaved
pub mod Buffers
pub mod Borrowing
pub mod Wrapping
pub mod Counting
pub mod Held
pub mod Holding
