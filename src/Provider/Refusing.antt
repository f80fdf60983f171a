-- ===== src/Provider/Refusing.antt =====
-- A rendezvous that meets an event of another connection: the listener's channel carries the events of
-- all the connections that it has accepted.
use rdmalib.Base.{ℕ, ◌≡◌, refl, Option, Bool, true, false, ◌&&◌}
use rdmalib.Base.Int.{pos, is_zero, eq_int}
use rdmalib.Base.Io.{ok, err, other}
use rdmalib.Base.Map.{get, nat_key}
use rdmalib.Meta.Stream.{Stream}
use rdmalib.Meta.Frame.{Channel, open_channel}
use rdmalib.Rdma.Calls.{
  Library, Host, CmEvent, ask, call, check, rdma_get_cm_event, rdma_ack_cm_event,
}
use rdmalib.Rdma.Domain.{ProtectionDomain}
use rdmalib.Rdma.Connect.{Listener, connect_request, accept_request, accept_impl}
use rdmalib.Provider.State.{Sharing}
use rdmalib.Provider.Service.{
  greet, group_pd, join, accept_reader, serve_joined, serve_greeted, serve_channel, handshake,
}

-- A connection request that came without an error.
abbrev pub is_request : CmEvent → Bool
is_request event = eq_int event.event (pos connect_request) && is_zero event.status

module _ (lib : Library) (l : Listener) where
  -- The next event of the listener's channel, and the host after it is acknowledged.
  abbrev pub next_event : Host lib.World → CmEvent
  next_event h = (ask lib (rdma_get_cm_event l.event_channel) h).0.1

  abbrev pub acknowledged : Host lib.World → Host lib.World
  acknowledged h =
      (ask lib (rdma_ack_cm_event (next_event h))
        (ask lib (rdma_get_cm_event l.event_channel) h).1).1

  accept_impl_unexpected :
      (domain : Option ProtectionDomain) (h : Host lib.World)
      → is_zero (ask lib (rdma_get_cm_event l.event_channel) h).0.0 ≡ true
      → is_request (next_event h) ≡ false
      → accept_impl lib l domain h ≡ (err other, acknowledged h)
  unfolding accept_impl accept_request call check
  accept_impl_unexpected domain h got unexpected = rw (got, check) (rw unexpected refl)

  -- Let a reader greet and ask for a group as the protocol wants, while the next event of the
  -- listener's channel is not a connection request, or is one with an error. Then its handshake
  -- fails: the event is taken and acknowledged, and no group, tuple or session comes about.
  pub handshake_unexpected :
      (stream : Stream) (s : Sharing lib) {channel : Channel} {group : ℕ} {channel' : Channel}
      → (open_channel stream).0 ≡ ok channel
      → greet channel ≡ (ok group, channel')
      → is_zero (ask lib (rdma_get_cm_event l.event_channel) s.host).0.0 ≡ true
      → is_request (next_event s.host) ≡ false
      → handshake lib l stream s ≡ (err other, record s { host = acknowledged s.host })
  unfolding handshake serve_channel serve_greeted serve_joined accept_reader join
  handshake_unexpected stream s {group = group} opened greeted got unexpected = rw opened (
      rw greeted (
        rw (accept_impl_unexpected (group_pd (get group s.shared.groups)) s.host got unexpected)
          refl))
