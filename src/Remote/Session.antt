-- ===== src/Remote/Session.antt =====
-- src/readers.rs: `RemoteMemoryProvider::update`. What the operating system does to reach the remote
-- is in its arguments: the stream that it opens, and the addresses that the name resolves to.
use rdmalib.Base.{ℕ, true, Option, none, some, List, [], ◌∷◌, ◌++◌, length, get_elem?, set}
use rdmalib.Base.Io.{IoResult, ok, err}
use rdmalib.Base.Exec.{Exec}
use rdmalib.Base.Map as Map
use rdmalib.Base.Map.{insert, nat_key}
use rdmalib.Meta.Message.{Message}
use rdmalib.Meta.Stream.{Stream}
use rdmalib.Meta.Frame.{Channel, open_channel}
use rdmalib.Rdma.Calls.{Library, Host}
use rdmalib.Rdma.OneSided.{Connection}
use rdmalib.Rdma.Connect.{SocketAddr, connect, drop_connection}
use rdmalib.Remote.Region.{Slots}
use rdmalib.Remote.Client.{
  GroupSession, RemoteMemoryProvider, ingest, receive_exchange, refresh, join_group,
}

-- `Channel::connect`
unfoldable pub dial : IoResult Stream → IoResult Channel
dial (err e) = err e
dial (ok stream) = (open_channel stream).0

module _ (lib : Library) where
  pub record Client : Type 0 where
    pub provider : RemoteMemoryProvider
    pub slots : Slots
    pub host : Host lib.World

  unfoldable pub set_channel : ℕ → GroupSession → Option Channel → Client → Client
  set_channel group session channel c = record c {
    provider = record (c.provider) {
      sessions = insert group (record session { channel = channel }) c.provider.sessions;
    };
  }

  unfoldable pub ingest_into : ℕ → Message × Message → Exec Client (Unit {0})
  ingest_into group exchange c =
      let (r, p) = ingest group exchange c.provider in (r, record c { provider = p })

  -- `sessions.entry(group).or_insert_with(..)`
  unfoldable pub session_of : ℕ → Client → GroupSession × Client
  session_of group c = elim (Map.get group c.provider.sessions) [
    | some session ↦ (session, c)
    | none ↦
        let session : GroupSession = record { channel = none; connection = length c.slots } in
        (session, set_channel group session none (record c { slots = c.slots ++ (none ∷ []) }))
  ]

  unfoldable pub refreshed :
      ℕ → GroupSession → IoResult (Message × Message) × Channel → Exec Client (Unit {0})
  refreshed group session (ok exchange, channel) c =
      ingest_into group exchange (set_channel group session (some channel) c)
  refreshed group session (err e, channel) c = (err e, set_channel group session none c)

  unfoldable pub drop_slot : Option (Option Connection) → Host lib.World → Host lib.World
  drop_slot (some (some conn)) h = (drop_connection lib true conn h).1
  drop_slot _ h = h

  -- `session.connection.borrow_mut().connection = Some(connection)`; what it replaces is dropped.
  unfoldable pub fill_slot : ℕ → Connection → Client → Client
  fill_slot slot conn c = record c {
    slots = set c.slots slot (some conn);
    host = drop_slot (get_elem? c.slots slot) c.host;
  }

  unfoldable pub exchanged :
      ℕ → GroupSession → IoResult (Message × Message) × Channel → Exec Client (Unit {0})
  exchanged group session (ok exchange, channel) c =
      ingest_into group exchange (set_channel group session (some channel) c)
  exchanged group session (err e, channel) c = (err e, c)

  unfoldable pub rendezvous :
      ℕ → GroupSession → Channel → IoResult Connection × Host lib.World → Exec Client (Unit {0})
  rendezvous group session channel (err e, h) c = (err e, record c { host = h })
  rendezvous group session channel (ok conn, h) c =
      exchanged group session (receive_exchange channel)
        (fill_slot session.connection conn (record c { host = h }))

  unfoldable pub after_join :
      ℕ
      → GroupSession
      → IoResult (List SocketAddr)
      → IoResult (Unit {0}) × Channel
      → Exec Client (Unit {0})
  after_join group session addrs (err e, channel) c = (err e, c)
  after_join group session addrs (ok _, channel) c =
      rendezvous group session channel (connect lib addrs c.host) c

  unfoldable pub fresh_session :
      ℕ → GroupSession → IoResult (List SocketAddr) → IoResult Channel → Exec Client (Unit {0})
  fresh_session group session addrs (err e) c = (err e, c)
  fresh_session group session addrs (ok channel) c =
      after_join group session addrs (join_group group channel) c

  unfoldable pub update_session :
      ℕ
      → IoResult Stream
      → IoResult (List SocketAddr)
      → GroupSession
      → Option Channel
      → Exec Client (Unit {0})
  update_session group dialed addrs session (some channel) c =
      refreshed group session (refresh channel) c
  update_session group dialed addrs session none c =
      fresh_session group session addrs (dial dialed) c

  -- RemoteMemoryProvider::update
  unfoldable pub update_group :
      ℕ → IoResult Stream → IoResult (List SocketAddr) → Exec Client (Unit {0})
  update_group group dialed addrs c =
      let (session, c') = session_of group c in
      update_session group dialed addrs session session.channel c'
