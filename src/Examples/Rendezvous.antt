-- ===== src/Examples/Rendezvous.antt =====
-- A test of a reader's first update against the provider's handshake.
use rdmalib.Base.{ℕ, ◌≡◌, refl, sym, subst, none, ◌++◌, List, [], ◌∷◌, arith}
use rdmalib.Base.Io.{IoResult, ok, timed_out}
use rdmalib.Base.Map.{get, insert, nat_key, pair_key}
use rdmalib.Meta.Message.{Message}
use rdmalib.Rdma.Calls.{Host, ask, call, check, check_ptr}
use rdmalib.Rdma.Domain.{alloc, register_addr, tuple}
use rdmalib.Rdma.OneSided.{expect}
use rdmalib.Rdma.Connect.{
  SocketAddr, v4, sockaddr, Listener, resolve_v4, cleaned, on_error, on_host, assign, conn_id,
  wait_event, create_pair, create_resources, resolve_device, route_device, finish, finish_connect,
  built, connect_to, connect, domain_for, device_domain, finish_accept, accept_on, accept_request,
  accept_impl,
}
use rdmalib.Provider.State.{
  Sharing, tuple_of, keep_tuple, insert_tuple, drop_replaced, region_desc, push_tuple, describe,
  catalog_and_tuples,
}
use rdmalib.Provider.Service.{group_pd, entry_with, put_group, join, accept_reader, handshake}
use rdmalib.Provider.Sharing.{IsShared}
use rdmalib.Remote.Client.{new_provider}
use rdmalib.Remote.Session.{Client, update_group}
use rdmalib.Exchange.Channels.{IsSendable}
use rdmalib.Exchange.Greeting.{clear, asked}
use rdmalib.Exchange.Halves.{replied}
use rdmalib.Exchange.Rendezvous.{Met, update_group-handshake}
use rdmalib.Examples.Device.{device, idle, connection}
use rdmalib.Examples.Exchanges.{info, exchange, catalog-IsSendable, tuples-IsSendable}

-- A provider of one region, without groups, at a host to which a connection request has come.
abbrev start : Sharing device
start = record {
  shared = record { catalog = (0, info) ∷ []; groups = []; tuples = [] };
  host = record { world = 3; log = [] };
}

start-IsShared : IsShared start.shared
unfolding get
start-IsShared = record { at = λ id group mr e. cc }

abbrev listener : Listener
listener = record { id = 2; event_channel = 7 }

abbrev joined : Sharing device
joined = (accept_reader device listener 5 start).1

accepted : accept_reader device listener 5 start ≡ (ok tt, joined)
unfolding accept_reader join put_group entry_with group_pd get insert alloc expect accept_impl
    accept_request accept_on device_domain domain_for finish finish_accept create_resources
    create_pair cleaned on_error on_host assign conn_id wait_event built call ask check check_ptr
accepted = refl

offered : (catalog_and_tuples device 5 joined).0 ≡ exchange
unfolding accept_reader join put_group entry_with group_pd get insert alloc expect accept_impl
    accept_request accept_on device_domain domain_for finish finish_accept create_resources
    create_pair cleaned on_error on_host assign conn_id wait_event built call ask check check_ptr
    catalog_and_tuples describe region_desc push_tuple tuple_of register_addr keep_tuple
    insert_tuple drop_replaced tuple
offered = refl

abbrev reader : Client device
reader = record { provider = new_provider; slots = []; host = idle }

abbrev pub address : IoResult (List SocketAddr)
address = ok (v4 (10 ∷ 0 ∷ 0 ∷ 1 ∷ []) 7000 ∷ [])

abbrev reached_host : Host ℕ
reached_host = (connect device address idle).1

reached : connect device address idle ≡ (ok connection, reached_host)
unfolding connect resolve_v4 sockaddr connect_to resolve_device route_device finish finish_connect
    create_resources create_pair cleaned on_error on_host assign conn_id wait_event built alloc call
    ask check check_ptr
reached = refl

unknown : get 5 reader.provider.sessions ≡ none
unfolding get
unknown = refl

update_group-handshake_example :
    Met device device listener 5
      (3 ∷ [])
      timed_out
      timed_out
      start
      joined
      connection
      0
      (handshake device listener (clear (asked 5 ++ (3 ∷ [])) timed_out []) start)
      (update_group device 5
        (ok (clear (replied (catalog_and_tuples device 5 joined).0) timed_out []))
        address
        reader)
update_group-handshake_example =
    update_group-handshake device device listener 5 timed_out timed_out address start joined reader
      (3 ∷ []) {conn = connection} {h = reached_host} (omega arith) start-IsShared (tt, tt) accepted
      (subst (λ (x : Message × Message). IsSendable x.0) (sym offered) catalog-IsSendable)
      (subst (λ (x : Message × Message). IsSendable x.1) (sym offered) tuples-IsSendable) unknown
      reached
