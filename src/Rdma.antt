-- ===== src/Rdma.antt =====
-- src/rdma/verbs.rs: the low-level RDMA commands over libibverbs and librdmacm.
pub mod Calls
pub mod Domain
pub mod OneSided
pub mod Registering
pub mod Waiting
pub mod Posting
pub mod Connect
pub mod Establishing
pub mod Structs
pub mod Teardown
pub mod Handles
