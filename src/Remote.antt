-- ===== src/Remote.antt =====
-- src/readers.rs: the reading side, and src/pod.rs.
pub mod Pod
pub mod Region
pub mod Client
pub mod Session
pub mod Ingest
pub mod View
pub mod Bounds
pub mod Transferring
pub mod Transfers
pub mod Safe
pub mod Caches
pub mod Linked
pub mod Cells
pub mod Growing
pub mod Handed
pub mod Lifetime
