-- ===== src/Examples/Device.antt =====
-- A device for the tests: it accepts every call, hands out fixed handles, and completes request 0 at
-- the first poll. Its world is the time, in nanoseconds; from time 100 on it makes no more ids.
use rdmalib.Base.{ℕ, ◌+◌, ◌/◌, ◌==◌, if◌then◌else◌, refl, some, [], arith}
use rdmalib.Base.Int.{pos}
use rdmalib.Rdma.Calls.{
  Library, Host, Call, Answer, ibv_alloc_pd, ibv_dealloc_pd, ibv_create_cq, ibv_destroy_cq,
  ibv_reg_mr, ibv_dereg_mr, post_send, poll_cq, rdma_create_event_channel,
  rdma_destroy_event_channel, rdma_create_id, rdma_destroy_id, rdma_bind_addr, rdma_listen,
  rdma_get_cm_event, rdma_ack_cm_event, rdma_resolve_addr, rdma_resolve_route, rdma_create_qp,
  rdma_destroy_qp, rdma_connect, rdma_accept, rdma_disconnect, id_verbs, id_qp, now,
}
use rdmalib.Rdma.Domain.{MemoryRegion, ProtectionDomain}
use rdmalib.Rdma.OneSided.{Connection}
use rdmalib.Rdma.Waiting.{Ticking}

-- The events in their order: those of a client that connects, then those of a listener that accepts.
abbrev event_at : ℕ → ℕ
event_at t = if t == 0 then 0 else if t == 1 then 2 else if t == 3 then 4 else 9

abbrev pub answers : (c : Call) → ℕ → Answer c × ℕ
answers (ibv_alloc_pd context) t = (3, t)
answers (ibv_dealloc_pd pd) t = (pos 0, t)
answers (ibv_create_cq context cqe) t = (4, t)
answers (ibv_destroy_cq cq) t = (pos 0, t)
answers (ibv_reg_mr pd addr size access) t = (record { handle = 6; lkey = 60; rkey = 61 }, t)
answers (ibv_dereg_mr mr) t = (pos 0, t)
answers (post_send qp wr) t = (pos 0, t)
answers (poll_cq cq) t = ((pos 1, record { wr_id = 0; status = pos 0; vendor_err = 0 }), t + 1)
answers rdma_create_event_channel t = (7, t)
answers (rdma_destroy_event_channel channel) t = (tt, t)
answers (rdma_create_id channel ps) t = ((pos (t / 100), 8), t)
answers (rdma_destroy_id id) t = (pos 0, t)
answers (rdma_bind_addr id addr) t = (pos 0, t)
answers (rdma_listen id backlog) t = (pos 0, t)
answers (rdma_get_cm_event channel) t =
    ((pos 0, record { id = 8; event = pos (event_at t); status = pos 0 }), t + 1)
answers (rdma_ack_cm_event event) t = (pos 0, t)
answers (rdma_resolve_addr id dst timeout) t = (pos 0, t)
answers (rdma_resolve_route id timeout) t = (pos 0, t)
answers (rdma_create_qp id pd cq) t = (pos 0, t)
answers (rdma_destroy_qp id) t = (tt, t)
answers (rdma_connect id) t = (pos 0, t)
answers (rdma_accept id) t = (pos 0, t)
answers (rdma_disconnect id) t = (pos 0, t)
answers (id_verbs id) t = (9, t)
answers (id_qp id) t = (5, t)
answers now t = (t, t)

abbrev pub device : Library
device = record { World = ℕ; respond = answers }

abbrev pub idle : Host ℕ
idle = record { world = 0; log = [] }

abbrev pub ticking : Ticking device
ticking = record {
  time = λ t. t;
  reads = λ t. refl;
  keeps = λ t. omega arith;
  passes = λ cq t. omega arith;
}

abbrev pub domain : ProtectionDomain
domain = record { context = 9; pd = 3 }

abbrev pub connection : Connection
connection = record { id = 8; cq = 4; pd = some domain; event_channel = 7; next_wr_id = 0 }

abbrev pub memory : MemoryRegion
memory = record { mr = 6; pd = 3; addr = 4096; size = 64; lkey = 60; rkey = 61 }
