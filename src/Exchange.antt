-- ===== src/Exchange.antt =====
-- Reader and provider together: the metadata exchange of src/providers.rs and src/readers.rs over
-- the channel of src/meta.rs.
pub mod Channels
pub mod Offer
pub mod Delivery
pub mod Greeting
pub mod Halves
pub mod Rendezvous
