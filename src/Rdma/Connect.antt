-- ===== src/Rdma/Connect.antt =====
-- src/rdma/verbs.rs: how connections come about, and how they are dropped.
use rdmalib.Base.{
  ℕ, ◌+◌, ◌*◌, ◌/◌, ◌%◌, Option, none, some, Bool, true, false, List, [], ◌∷◌, not, ◌==◌, ◌&&◌,
  if◌then◌else◌,
}
use rdmalib.Base.Int.{pos, is_zero, eq_int}
use rdmalib.Base.Io.{IoResult, ok, err, invalid_input, unsupported, other}
use rdmalib.Base.Exec.{Exec, ◌>>=◌, ◌>>◌, pure, raise, lift}
use rdmalib.Rdma.Calls.{
  Library, Host, SockaddrIn, CmEvent, call, check, check_ptr, ibv_dealloc_pd, ibv_create_cq,
  ibv_destroy_cq, rdma_create_event_channel, rdma_destroy_event_channel, rdma_create_id,
  rdma_destroy_id, rdma_bind_addr, rdma_listen, rdma_get_cm_event, rdma_ack_cm_event,
  rdma_resolve_addr, rdma_resolve_route, rdma_create_qp, rdma_destroy_qp, rdma_connect, rdma_accept,
  rdma_disconnect, id_verbs, id_qp,
}
use rdmalib.Rdma.Domain.{ProtectionDomain, alloc}
use rdmalib.Rdma.OneSided.{Connection, Rdma}

abbrev pub rdma_ps_tcp : ℕ
rdma_ps_tcp = 0x106

abbrev pub resolve_timeout_ms : ℕ
resolve_timeout_ms = 2000

abbrev pub cq_size : ℕ
cq_size = 16

abbrev pub listen_backlog : ℕ
listen_backlog = 16

abbrev pub addr_resolved : ℕ
addr_resolved = 0

abbrev pub route_resolved : ℕ
route_resolved = 2

abbrev pub connect_request : ℕ
connect_request = 4

abbrev pub established : ℕ
established = 9

-- std::net::SocketAddr
pub data SocketAddr : Type 0 where
  v4 : List ℕ → ℕ → SocketAddr
  v6 : List ℕ → ℕ → SocketAddr

-- `SockaddrIn::from`; `to_be` swaps the two bytes of the port, on a little-endian machine.
unfoldable pub sockaddr : List ℕ → ℕ → SockaddrIn
sockaddr ip port = record {
  sin_family = 2;
  sin_port = (port % 256) * 256 + port / 256;
  sin_addr = ip;
}

-- `resolve_v4` and `SockaddrIn::from`, of what `to_socket_addrs` returned.
unfoldable pub resolve_v4 : IoResult (List SocketAddr) → IoResult SockaddrIn
unfolding sockaddr
resolve_v4 (err e) = err e
resolve_v4 (ok []) = err invalid_input
resolve_v4 (ok (v4 ip port ∷ rest)) = ok (sockaddr ip port)
resolve_v4 (ok (v6 ip port ∷ rest)) = err unsupported

-- What is done when a step fails, before its error is returned.
unfoldable pub cleaned : {S A : Type 0} → Exec S (Unit {0}) → IoResult A × S → IoResult A × S
cleaned clean (ok a, s) = (ok a, s)
cleaned clean (err e, s) = (err e, (clean s).1)

unfoldable pub on_error : {S A : Type 0} → Exec S (Unit {0}) → Exec S A → Exec S A
on_error clean m s = cleaned clean (m s)

unfoldable pub when : {S : Type 0} → Bool → Exec S (Unit {0}) → Exec S (Unit {0})
when test m = if test then m else pure tt

pub record Listener : Type 0 where
  pub id : ℕ
  pub event_channel : ℕ

module _ (lib : Library) where
  unfoldable pub on_host : {A : Type 0} → Exec (Host lib.World) A → Exec (Rdma lib) A
  on_host m s = let (r, h) = m s.host in (r, record s { host = h })

  unfoldable pub assign : (Connection → Connection) → Exec (Rdma lib) (Unit {0})
  assign f s = (ok tt, record s { conn = f s.conn })

  unfoldable pub conn_id : Exec (Rdma lib) ℕ
  conn_id s = (ok s.conn.id, s)

  unfoldable pub wait_event : ℕ → ℕ → Exec (Host lib.World) (Unit {0})
  wait_event channel expected = do
    answer ← call lib (rdma_get_cm_event channel)
    lift (check answer.0)
    ack ← call lib (rdma_ack_cm_event answer.1)
    if eq_int answer.1.event (pos expected) && is_zero answer.1.status
        then lift (check ack)
        else raise other

  -- The drop of a handle of a domain: the last one deallocates the domain.
  unfoldable pub release : Bool → ProtectionDomain → Exec (Host lib.World) (Unit {0})
  release true pd = do call lib (ibv_dealloc_pd pd.pd); pure tt
  release false pd = pure tt

  -- `create_resources` up to its last step.
  unfoldable pub create_pair : ProtectionDomain → Exec (Rdma lib) (Unit {0})
  create_pair pd = do
    id ← conn_id
    context ← on_host (call lib (id_verbs id))
    ptr ← on_host (call lib (ibv_create_cq context cq_size))
    cq ← lift (check_ptr ptr)
    assign (λ c. record c { cq = cq })
    ret ← on_host (call lib (rdma_create_qp id pd.pd cq))
    lift (check ret)

  -- `sole` is whether the handle passed is the domain's only one.
  unfoldable pub create_resources : Bool → ProtectionDomain → Exec (Rdma lib) (Unit {0})
  create_resources sole pd = do
    on_error (on_host (release sole pd)) (create_pair pd)
    assign (λ c. record c { pd = some pd })

  -- The steps of `connect_to` from an id to a protection domain.
  unfoldable pub route_device : ℕ → ℕ → SockaddrIn → Exec (Rdma lib) ProtectionDomain
  route_device channel id dst = do
    resolving ← on_host (call lib (rdma_resolve_addr id dst resolve_timeout_ms))
    lift (check resolving)
    on_host (wait_event channel addr_resolved)
    routing ← on_host (call lib (rdma_resolve_route id resolve_timeout_ms))
    lift (check routing)
    on_host (wait_event channel route_resolved)
    context ← on_host (call lib (id_verbs id))
    on_host (alloc lib context)

  -- The steps of `connect_to` up to the protection domain.
  unfoldable pub resolve_device : ℕ → SockaddrIn → Exec (Rdma lib) ProtectionDomain
  resolve_device channel dst = do
    made ← on_host (call lib (rdma_create_id channel rdma_ps_tcp))
    lift (check made.0)
    assign (λ c. record c { id = made.1 })
    route_device channel made.1 dst

  unfoldable pub finish_connect : ℕ → ℕ → Exec (Host lib.World) (Unit {0})
  finish_connect channel id = do
    connecting ← call lib (rdma_connect id)
    lift (check connecting)
    wait_event channel established

  -- The last steps, on the connection's id.
  unfoldable pub finish : (ℕ → Exec (Host lib.World) (Unit {0})) → Exec (Rdma lib) (Unit {0})
  finish m = do id ← conn_id; on_host (m id)

  unfoldable pub connect_to : ℕ → SockaddrIn → Exec (Rdma lib) (Unit {0})
  connect_to channel dst = do
    pd ← resolve_device channel dst
    create_resources true pd
    finish (finish_connect channel)

  unfoldable pub drop_id : ℕ → Exec (Host lib.World) (Unit {0})
  drop_id id = do
    qp ← call lib (id_qp id)
    when (not (qp == 0)) (do call lib (rdma_disconnect id); call lib (rdma_destroy_qp id); pure tt)
    call lib (rdma_destroy_id id)
    pure tt

  unfoldable pub release_field : Bool → Option ProtectionDomain → Exec (Host lib.World) (Unit {0})
  release_field sole none = pure tt
  release_field sole (some pd) = release sole pd

  -- `Drop for Connection`, and the drop of its domain's handle.
  unfoldable pub drop_connection : Bool → Connection → Exec (Host lib.World) (Unit {0})
  drop_connection sole conn = do
    when (not (conn.id == 0)) (drop_id conn.id)
    when (not (conn.cq == 0)) (do call lib (ibv_destroy_cq conn.cq); pure tt)
    when (not (conn.event_channel == 0))
        (do call lib (rdma_destroy_event_channel conn.event_channel); pure tt)
    release_field sole conn.pd

  -- A connection whose set-up failed is dropped.
  unfoldable pub built :
      Bool → IoResult (Unit {0}) × Rdma lib → IoResult Connection × Host lib.World
  built sole (ok _, s) = (ok s.conn, s.host)
  built sole (err e, s) = (err e, (drop_connection sole s.conn s.host).1)

  abbrev pub unconnected : ℕ → ℕ → Connection
  unconnected id channel = record {
    id = id;
    cq = 0;
    pd = none;
    event_channel = channel;
    next_wr_id = 0;
  }

  unfoldable pub connect : IoResult (List SocketAddr) → Exec (Host lib.World) Connection
  connect addrs = do
    dst ← lift (resolve_v4 addrs)
    ptr ← call lib rdma_create_event_channel
    channel ← lift (check_ptr ptr)
    λ h. built true (connect_to channel dst (record { conn = unconnected 0 channel; host = h }))

  unfoldable pub listen_on : ℕ → SockaddrIn → Exec (Host lib.World) (Unit {0})
  listen_on id addr = do
    binding ← call lib (rdma_bind_addr id addr)
    lift (check binding)
    listening ← call lib (rdma_listen id listen_backlog)
    lift (check listening)

  -- `Drop for Listener`, and what a failing `bind` undoes.
  unfoldable pub drop_listener : Listener → Exec (Host lib.World) (Unit {0})
  drop_listener l = do
    call lib (rdma_destroy_id l.id)
    call lib (rdma_destroy_event_channel l.event_channel)
    pure tt

  unfoldable pub bind : IoResult (List SocketAddr) → Exec (Host lib.World) Listener
  bind addrs = do
    addr ← lift (resolve_v4 addrs)
    ptr ← call lib rdma_create_event_channel
    channel ← lift (check_ptr ptr)
    made ← call lib (rdma_create_id channel rdma_ps_tcp)
    lift (check made.0)
    on_error (drop_listener (record { id = made.1; event_channel = channel }))
        (listen_on made.1 addr)
    pure (record { id = made.1; event_channel = channel })

  unfoldable pub domain_for : Option ProtectionDomain → ℕ → Exec (Host lib.World) ProtectionDomain
  domain_for none context = alloc lib context
  domain_for (some pd) context = if pd.context == context then pure pd else raise other

  abbrev pub is_none : {A : Type 0} → Option A → Bool
  is_none none = true
  is_none (some a) = false

  unfoldable pub device_domain : Option ProtectionDomain → Exec (Rdma lib) ProtectionDomain
  device_domain domain = do
    id ← conn_id
    context ← on_host (call lib (id_verbs id))
    on_host (domain_for domain context)

  unfoldable pub finish_accept : ℕ → ℕ → Exec (Host lib.World) (Unit {0})
  finish_accept channel id = do
    accepting ← call lib (rdma_accept id)
    lift (check accepting)
    wait_event channel established

  -- `accept_impl`, once the connection request is acknowledged.
  unfoldable pub accept_on : Listener → Option ProtectionDomain → Exec (Rdma lib) (Unit {0})
  accept_on l domain = do
    pd ← device_domain domain
    create_resources (is_none domain) pd
    finish (finish_accept l.event_channel)

  unfoldable pub accept_request : CmEvent → Exec (Host lib.World) (Unit {0})
  accept_request event = do
    ack ← call lib (rdma_ack_cm_event event)
    if eq_int event.event (pos connect_request) && is_zero event.status
        then lift (check ack)
        else raise other

  unfoldable pub accept_impl : Listener → Option ProtectionDomain → Exec (Host lib.World) Connection
  accept_impl l domain = do
    answer ← call lib (rdma_get_cm_event l.event_channel)
    lift (check answer.0)
    accept_request answer.1
    λ h.
        built (is_none domain)
          (accept_on l domain (record { conn = unconnected answer.1.id 0; host = h }))

  unfoldable pub accept : Listener → Exec (Host lib.World) Connection
  accept l = accept_impl l none

  unfoldable pub accept_into : Listener → ProtectionDomain → Exec (Host lib.World) Connection
  accept_into l pd = accept_impl l (some pd)
