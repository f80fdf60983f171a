-- ===== src/Lib.antt =====
-- rdmalib: memory regions shared over RDMA, with a metadata exchange over TCP. A provider registers
-- buffers (`src/providers.rs`); a reader learns of them over a metadata channel (`src/meta.rs`) and
-- reads and writes them with one-sided RDMA operations (`src/readers.rs`, `src/rdma/verbs.rs`).
--
-- What models what:
-- - Base: Boolean tests, lists, `io::Error` kinds, a state and error monad, machine words, the `c_int`
--   of the C calls, maps.
-- - Meta, for `src/meta.rs`. Message: the messages. Encode: `Message::encode` and the `put_*` helpers.
--   Cursor: `Reader`. Utf8: `std::str::from_utf8`, by the table of the Unicode standard. Decode:
--   `decode`. Stream: a TCP stream, as the bytes that will come and the faults of the system calls.
--   Frame: `read_frame`, `write_frame` and `Channel`. The other modules are proofs.
-- - Rdma, for `src/rdma/verbs.rs`. Calls: the calls of libibverbs and librdmacm and of the clock are
--   the data type `Call`, and what answers them is the parameter `Library`; every call is logged, with
--   its arguments. Domain: `ProtectionDomain` and `MemoryRegion`. Handles: the count of a domain's
--   handles. OneSided: `Connection::one_sided`, `read` and `write`. Connect: `connect`, `Listener` and
--   the drops. Structs: the `#[repr(C)]` structures. Teardown/Order: the order in which the libraries'
--   documentation lets objects be destroyed. The other modules are proofs.
-- - Remote, for `src/readers.rs` and `src/pod.rs`. Pod: the layout of an element type and
--   `zeroed_vec`. Safe: the types declared `RemoteSafe`. Region: `GroupConnection` and the reads and
--   writes of `RemoteMemoryRegion`; a shared cell is its index. Client: the caches of
--   `RemoteMemoryProvider`, `ingest` and `get_remote_mr`. Session: `update`. View: the caches as a
--   function, and an exchange as a change to it. Lifetime: a reader's updates, look-ups and transfers
--   as a step relation. The other modules are proofs.
-- - Provider, for `src/providers.rs`. State: `SharedMemoryRegionProvider`, `register_typed`,
--   `Shared::tuple_of` and `catalog_and_tuples`. Phases: `tuple_of` lock by lock. Race: two threads
--   in it at once. Threads: any number of them, with the service and the application.
--   Service: `handshake` and `wait_for_updates`. System: the provider, its service and its sessions, as
--   a step relation; each step runs alone. Buffers: `SharedMemoryRegionHandle`. Serving: `serve`, the
--   accept loop and the provider's drop. Held: the handles of domains that a join makes. Counting: the
--   drop of the groups by the counts. The other modules are proofs.
-- - Exchange: provider and reader together, over the wire. All its modules are proofs.
-- - Examples: a device, and each theorem at a concrete input.
--
-- Conventions. Integers are natural numbers with the wrap-around of a release build written out;
-- `usize` and `u64` have 64 bits. An `io::Result` is `IoResult`, its error the kind only: message
-- texts are left out. A panic is the kind `panicked`. A hash map is an association list, whose order
-- stands for the order of iteration. Memory is known by its address and size; the bytes that the
-- device moves are the device's.
--
-- Fuel. The loop over `ibv_poll_cq` runs on fuel, and `none` is a run that the fuel cut off. On a
-- clock on which every poll takes at least a nanosecond, `suc poll_timeout` rounds are enough.
--
-- Connections. What the operating system answers to a name lookup or a TCP connect is an argument.
-- A handle of a protection domain is dropped with a Boolean that tells whether it is the last one;
-- Handles has the counts that it stands for, where the groups of a provider are made and dropped.
-- `wait_for_updates` takes the list of what it finds its shutdown flag at, round by round, and is
-- `none` when it goes on past them; one more round than there are bytes to come is enough.
--
-- The service. Its accept loop takes the list of what each round finds the shutdown flag at, of what
-- its attempt to accept gives and of the rounds that the sessions take meanwhile; the join after it
-- takes the rounds that the sessions take until they end. The steps of System run alone. In Threads
-- the look-ups of tuples, the rendezvous and the registrations are interleaved lock by lock; an
-- `accept_impl` is one step there.
--
-- Buffers. A `Rc<RefCell<..>>` is the index of a cell, and a borrow is the vector whose elements it
-- shows. The contents of a buffer are not modelled, since the device writes to them at any time.
--
-- Not modelled: the scheduling of the threads and the sleep of the accept loop, the poisoning of locks,
-- and `Debug` output.
pub mod Base
pub mod Meta
pub mod Rdma
pub mod Remote
pub mod Provider
pub mod Exchange
mod Examples
