-- ===== src/Rdma/Calls.antt =====
-- src/rdma/verbs.rs: the calls of the two C libraries, which are parameters. A handle is the number
-- of its address, and 0 is the null pointer. Every call is logged, with its arguments.
use rdmalib.Base.{ℕ, List, [], ◌∷◌, ◌++◌, ◌==◌, if◌then◌else◌}
use rdmalib.Base.Int.{ℤ, is_zero}
use rdmalib.Base.Io.{IoResult, ok, err, other}
use rdmalib.Base.Exec.{Exec}

-- IbvSge
pub record Sge : Type 0 where
  pub addr : ℕ
  pub length : ℕ
  pub lkey : ℕ

-- IbvSendWr, with its one scatter/gather entry and the rdma variant of its union
pub record SendWr : Type 0 where
  pub wr_id : ℕ
  pub sge : Sge
  pub opcode : ℕ
  pub send_flags : ℕ
  pub remote_addr : ℕ
  pub rkey : ℕ

-- IbvWc, the fields that are read
pub record Completion : Type 0 where
  pub wr_id : ℕ
  pub status : ℤ
  pub vendor_err : ℕ

-- IbvMr, the fields that are read; `handle` is its address
pub record RegisteredMr : Type 0 where
  pub handle : ℕ
  pub lkey : ℕ
  pub rkey : ℕ

-- RdmaCmEvent
pub record CmEvent : Type 0 where
  pub id : ℕ
  pub event : ℤ
  pub status : ℤ

-- SockaddrIn; `sin_zero` is eight zero bytes
pub record SockaddrIn : Type 0 where
  pub sin_family : ℕ
  pub sin_port : ℕ
  pub sin_addr : List ℕ

-- The calls, the reads of the clock and of the fields of a C structure.
pub data Call : Type 0 where
  ibv_alloc_pd : ℕ → Call
  ibv_dealloc_pd : ℕ → Call
  ibv_create_cq : ℕ → ℕ → Call
  ibv_destroy_cq : ℕ → Call
  ibv_reg_mr : ℕ → ℕ → ℕ → ℕ → Call
  ibv_dereg_mr : ℕ → Call
  post_send : ℕ → SendWr → Call
  poll_cq : ℕ → Call
  rdma_create_event_channel : Call
  rdma_destroy_event_channel : ℕ → Call
  rdma_create_id : ℕ → ℕ → Call
  rdma_destroy_id : ℕ → Call
  rdma_bind_addr : ℕ → SockaddrIn → Call
  rdma_listen : ℕ → ℕ → Call
  rdma_get_cm_event : ℕ → Call
  rdma_ack_cm_event : CmEvent → Call
  rdma_resolve_addr : ℕ → SockaddrIn → ℕ → Call
  rdma_resolve_route : ℕ → ℕ → Call
  rdma_create_qp : ℕ → ℕ → ℕ → Call
  rdma_destroy_qp : ℕ → Call
  rdma_connect : ℕ → Call
  rdma_accept : ℕ → Call
  rdma_disconnect : ℕ → Call
  id_verbs : ℕ → Call
  id_qp : ℕ → Call
  now : Call

-- What a call answers: a code, a handle, or what it fills in.
abbrev pub Answer : Call → Type 0
Answer (ibv_alloc_pd context) = ℕ
Answer (ibv_dealloc_pd pd) = ℤ
Answer (ibv_create_cq context cqe) = ℕ
Answer (ibv_destroy_cq cq) = ℤ
Answer (ibv_reg_mr pd addr size access) = RegisteredMr
Answer (ibv_dereg_mr mr) = ℤ
Answer (post_send qp wr) = ℤ
Answer (poll_cq cq) = ℤ × Completion
Answer rdma_create_event_channel = ℕ
Answer (rdma_destroy_event_channel channel) = Unit
Answer (rdma_create_id channel ps) = ℤ × ℕ
Answer (rdma_destroy_id id) = ℤ
Answer (rdma_bind_addr id addr) = ℤ
Answer (rdma_listen id backlog) = ℤ
Answer (rdma_get_cm_event channel) = ℤ × CmEvent
Answer (rdma_ack_cm_event event) = ℤ
Answer (rdma_resolve_addr id dst timeout) = ℤ
Answer (rdma_resolve_route id timeout) = ℤ
Answer (rdma_create_qp id pd cq) = ℤ
Answer (rdma_destroy_qp id) = Unit
Answer (rdma_connect id) = ℤ
Answer (rdma_accept id) = ℤ
Answer (rdma_disconnect id) = ℤ
Answer (id_verbs id) = ℕ
Answer (id_qp id) = ℕ
Answer now = ℕ

-- The C libraries, the device and the clock, with whatever state they keep.
pub record Library : Type 1 where
  pub World : Type 0
  pub respond : (c : Call) → World → Answer c × World

-- The world with the calls made so far, the latest last.
pub record Host (World : Type 0) : Type 0 where
  pub world : World
  pub log : List Call

module _ (lib : Library) where
  unfoldable pub ask : (c : Call) → Host lib.World → Answer c × Host lib.World
  ask c h = let (a, w) = lib.respond c h.world in (a, record { world = w; log = h.log ++ (c ∷ []) })

  unfoldable pub call : (c : Call) → Exec (Host lib.World) (Answer c)
  call c h = let (a, h') = ask c h in (ok a, h')

-- `check`: a non-zero code is an error.
unfoldable pub check : ℤ → IoResult (Unit {0})
check ret = if is_zero ret then ok tt else err other

-- `check_ptr`: a null pointer is an error.
unfoldable pub check_ptr : ℕ → IoResult ℕ
check_ptr ptr = if ptr == 0 then err other else ok ptr
