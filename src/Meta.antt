-- ===== src/Meta.antt =====
-- src/meta.rs: the wire protocol of the metadata exchange.
pub mod Message
pub mod Utf8
pub mod Encode
pub mod Cursor
pub mod Decode
pub mod Stream
pub mod Frame
pub mod Image
pub mod Reading
pub mod RoundTrip
pub mod Parsing
pub mod Canonical
pub mod Framing
pub mod Received
pub mod Consuming
