-- ===== src/Examples/Establishment.antt =====
-- Tests of the establishment of connections.
use rdmalib.Base.Int.{is_zero}
use rdmalib.Base.{true, false, ℕ, ◌≡◌, refl, List, [], ◌∷◌, some}
use rdmalib.Base.Io.{IoResult, ok, err, other}
use rdmalib.Rdma.Calls.{
  Host, ask, call, check, check_ptr, rdma_create_event_channel, rdma_create_id,
}
use rdmalib.Rdma.OneSided.{Connection}
use rdmalib.Rdma.Connect.{
  SocketAddr, v4, sockaddr, Listener, rdma_ps_tcp, resolve_v4, cleaned, on_error, on_host, assign,
  conn_id, wait_event, create_pair, create_resources, finish, built, bind, domain_for,
  drop_connection, device_domain, finish_accept, accept_on, accept_request, accept_impl,
}
use rdmalib.Rdma.Establishing.{Joins, accept_impl-Joins, bind_leaks}
use rdmalib.Rdma.Teardown.{TornDown, has_pair, drop_connection-TornDown}
use rdmalib.Examples.Device.{device, domain, connection}

abbrev address : IoResult (List SocketAddr)
address = ok (v4 (10 ∷ 0 ∷ 0 ∷ 1 ∷ []) 7000 ∷ [])

abbrev listener : Listener
listener = record { id = 2; event_channel = 7 }

-- A host at which a connection request is waiting.
abbrev requested : Host ℕ
requested = record { world = 3; log = [] }

abbrev accepted : Connection
accepted = record { id = 8; cq = 4; pd = some domain; event_channel = 0; next_wr_id = 0 }

abbrev accepted_host : Host ℕ
accepted_host = (accept_impl device listener (some domain) requested).1

accepts : accept_impl device listener (some domain) requested ≡ (ok accepted, accepted_host)
unfolding accept_impl accept_request accept_on device_domain domain_for finish finish_accept
    create_resources create_pair cleaned on_error on_host assign conn_id wait_event built call ask
    check check_ptr
accepts = refl

accept_impl-Joins_example : Joins (some domain) accepted.pd
accept_impl-Joins_example =
    accept_impl-Joins device listener (some domain) requested {c = accepted} {h' = accepted_host}
      accepts

-- A host whose device makes no more ids.
abbrev exhausted : Host ℕ
exhausted = record { world = 100; log = [] }

resolves : resolve_v4 address ≡ ok (sockaddr (10 ∷ 0 ∷ 0 ∷ 1 ∷ []) 7000)
unfolding resolve_v4
resolves = refl

channel_made :
    check_ptr (ask device rdma_create_event_channel exhausted).0
    ≡ ok (ask device rdma_create_event_channel exhausted).0
unfolding check_ptr ask
channel_made = refl

abbrev channel : ℕ
channel = (ask device rdma_create_event_channel exhausted).0

id_refused :
    is_zero
      (ask device
        (rdma_create_id channel rdma_ps_tcp)
        (ask device rdma_create_event_channel exhausted).1).0.0
    ≡ false
unfolding ask
id_refused = refl

bind_leaks_example :
    ((bind device address exhausted).0 ≡ err other)
    × ((bind device address exhausted).1.log
        ≡ rdma_create_event_channel ∷ rdma_create_id channel rdma_ps_tcp ∷ [])
bind_leaks_example =
    bind_leaks device address (sockaddr (10 ∷ 0 ∷ 0 ∷ 1 ∷ []) 7000) exhausted resolves channel_made
      id_refused

drop_connection-TornDown_example :
    ((drop_connection device true connection requested).0 ≡ ok tt)
    × TornDown device
        (has_pair device 8 requested)
        true
        connection
        requested
        (drop_connection device true connection requested).1
drop_connection-TornDown_example = drop_connection-TornDown device true connection requested
