-- ===== src/Examples/Operations.antt =====
-- Tests of the RDMA operations, of the guards of a region and of the transfers.
use rdmalib.Base.{suc, ◌≡◌, inr, refl, List, [], ◌∷◌, some, arith}
use rdmalib.Base.Io.{IoResult, ok, err, invalid_input}
use rdmalib.Rdma.Calls.{Call, ibv_reg_mr, ibv_dereg_mr, post_send, poll_cq, id_qp, now}
use rdmalib.Rdma.Domain.{MemoryRegion, access}
use rdmalib.Rdma.OneSided.{
  Rdma, poll_timeout, ibv_wr_rdma_read, ibv_wr_rdma_write, send_wr, one_sided,
}
use rdmalib.Rdma.Posting.{one_sided_ends, one_sided_rejects}
use rdmalib.Remote.Pod.{Layout, Buffer}
use rdmalib.Remote.Region.{RemoteMemoryRegion, Reader, plan_read, plan_write, read_into}
use rdmalib.Remote.Bounds.{IsMapped, reach, plan_read_exact, plan_write_exact}
use rdmalib.Remote.Transfers.{read_into_rejects}
use rdmalib.Examples.Device.{device, idle, ticking, domain, connection, memory}

abbrev before : Rdma device
before = record { conn = connection; host = idle }

-- The calls of a write of eight bytes that completes at the first poll.
abbrev write_calls : List Call
write_calls =
    id_qp 8
    ∷ post_send 5 (send_wr device 0 ibv_wr_rdma_write memory 8192 77 8)
    ∷ now
    ∷ poll_cq 4
    ∷ []

abbrev after : Rdma device
after = record {
  conn = record connection { next_wr_id = 1 };
  host = record { world = 1; log = write_calls };
}

one_sided_rejects_example :
    one_sided device 0 ibv_wr_rdma_write memory 8192 77 65 before ≡ some (err invalid_input, before)
one_sided_rejects_example =
    one_sided_rejects device ibv_wr_rdma_write memory 8192 77 65 0 before domain refl
      (λ (positive, within, domain). absurd (omega arith))

one_sided_ends_example :
    (r : IoResult (Unit {0})) × (s' : Rdma device) × (one_sided device
        (suc poll_timeout)
        ibv_wr_rdma_read
        memory
        8192
        77
        8
        before
      ≡ some (r, s'))
one_sided_ends_example =
    one_sided_ends device ibv_wr_rdma_read memory 8192 77 8 ticking poll_timeout before
      (omega arith)

-- A region of sixteen elements of four bytes each.
abbrev remote : RemoteMemoryRegion
remote = record {
  connection = 0;
  remote_addr = 8192;
  size = 64;
  rkey = 77;
  group = 0;
  elem_size = 4;
  elem_align = 4;
  elem_type = b'u' ∷ b'3' ∷ b'2' ∷ [];
}

abbrev word : Layout
word = record { size = 4; align = 4; name = b'u' ∷ b'3' ∷ b'2' ∷ [] }

remote-IsMapped : IsMapped remote
remote-IsMapped = record { size = omega arith; range = omega arith }

abbrev buffer : Buffer
buffer = record { addr = 4096; bytes = 16 }

plan_read_exact_example : plan_read remote 60 4 buffer ≡ ok (reach buffer remote 60 4)
plan_read_exact_example = plan_read_exact remote 60 4 buffer remote-IsMapped (omega arith)

abbrev reader : Reader device
reader = record { slots = some connection ∷ []; host = idle }

read_into_rejects_example :
    read_into device 0 remote 60 8 buffer reader ≡ some (err invalid_input, reader)
read_into_rejects_example =
    read_into_rejects device remote 60 8 buffer 0 reader remote-IsMapped (omega arith)
      (inr (omega arith))

-- The memory registered for a read of sixteen bytes.
abbrev registered : MemoryRegion
registered = record { mr = 6; pd = 3; addr = 4096; size = 16; lkey = 60; rkey = 61 }

abbrev read_done : Reader device
read_done = record {
  slots = some (record connection { next_wr_id = 1 }) ∷ [];
  host = record {
    world = 1;
    log =
        ibv_reg_mr 3 4096 16 access
        ∷ id_qp 8
        ∷ post_send 5 (send_wr device 0 ibv_wr_rdma_read registered 8240 77 16)
        ∷ now
        ∷ poll_cq 4
        ∷ ibv_dereg_mr 6
        ∷ [];
  };
}

plan_write_exact_example : plan_write remote 60 buffer ≡ err invalid_input
plan_write_exact_example = plan_write_exact remote 60 buffer remote-IsMapped (omega arith)
