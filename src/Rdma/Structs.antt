-- ===== src/Rdma/Structs.antt =====
-- src/rdma/verbs.rs: the structures that cross to the C libraries, with the layout that `#[repr(C)]`
-- gives them, by the Rust reference: each field at the next multiple of its alignment, and the size
-- rounded up to the largest alignment. Pointers and `usize` have 8 bytes, C's `int` has 4.
use Prim.Native.String.{String}
use rdmalib.Base.{ℕ, ◌+◌, ◌-◌, ◌*◌, ◌/◌, List, [], ◌∷◌, max}

-- `size_of` and `align_of`
pub record Abi : Type 0 where
  pub size : ℕ
  pub align : ℕ

pub record Field : Type 0 where
  pub name : String
  pub abi : Abi

abbrev field : String → Abi → Field
field name abi = record { name = name; abi = abi }

-- The next multiple of an alignment.
unfoldable pub align_up : ℕ → ℕ → ℕ
align_up align n = (n + (align - 1)) / align * align

-- Where the fields from `at` on begin, and where the last one ends.
unfoldable pub offsets : ℕ → List Field → List ℕ
offsets at [] = []
offsets at (f ∷ fs) = let start = align_up f.abi.align at in start ∷ offsets (start + f.abi.size) fs

unfoldable pub end_of : ℕ → List Field → ℕ
end_of at [] = at
end_of at (f ∷ fs) = end_of (align_up f.abi.align at + f.abi.size) fs

unfoldable pub max_align : List Field → ℕ
max_align [] = 1
max_align (f ∷ fs) = max f.abi.align (max_align fs)

unfoldable pub repr_c : List Field → Abi
repr_c fs = record { size = align_up (max_align fs) (end_of 0 fs); align = max_align fs }

abbrev pub scalar : ℕ → Abi
scalar size = record { size = size; align = size }

abbrev pub u8 : Abi
u8 = scalar 1

abbrev pub u16 : Abi
u16 = scalar 2

abbrev pub u32 : Abi
u32 = scalar 4

abbrev pub u64 : Abi
u64 = scalar 8

abbrev pub usize : Abi
usize = scalar 8

abbrev pub c_int : Abi
c_int = scalar 4

abbrev pub c_uint : Abi
c_uint = scalar 4

abbrev pub pointer : Abi
pointer = scalar 8

abbrev pub array : Abi → ℕ → Abi
array elem len = record { size = elem.size * len; align = elem.align }

-- IbvQp: only the leading field is declared.
abbrev pub ibv_qp : List Field
ibv_qp = field "context" pointer ∷ []

-- IbvCq: the same.
abbrev pub ibv_cq : List Field
ibv_cq = field "context" pointer ∷ []

-- IbvContextOps
abbrev pub ibv_context_ops : List Field
ibv_context_ops =
    field "_compat_query_device" pointer
    ∷ field "_compat_query_port" pointer
    ∷ field "_compat_alloc_pd" pointer
    ∷ field "_compat_dealloc_pd" pointer
    ∷ field "_compat_reg_mr" pointer
    ∷ field "_compat_rereg_mr" pointer
    ∷ field "_compat_dereg_mr" pointer
    ∷ field "alloc_mw" pointer
    ∷ field "bind_mw" pointer
    ∷ field "dealloc_mw" pointer
    ∷ field "_compat_create_cq" pointer
    ∷ field "poll_cq" pointer
    ∷ field "req_notify_cq" pointer
    ∷ field "_compat_cq_event" pointer
    ∷ field "_compat_resize_cq" pointer
    ∷ field "_compat_destroy_cq" pointer
    ∷ field "_compat_create_srq" pointer
    ∷ field "_compat_modify_srq" pointer
    ∷ field "_compat_query_srq" pointer
    ∷ field "_compat_destroy_srq" pointer
    ∷ field "post_srq_recv" pointer
    ∷ field "_compat_create_qp" pointer
    ∷ field "_compat_query_qp" pointer
    ∷ field "_compat_modify_qp" pointer
    ∷ field "_compat_destroy_qp" pointer
    ∷ field "post_send" pointer
    ∷ []

-- IbvContext
abbrev pub ibv_context : List Field
ibv_context = field "device" pointer ∷ field "ops" (repr_c ibv_context_ops) ∷ []

-- IbvMr
abbrev pub ibv_mr : List Field
ibv_mr =
    field "context" pointer
    ∷ field "pd" pointer
    ∷ field "addr" pointer
    ∷ field "length" usize
    ∷ field "handle" u32
    ∷ field "lkey" u32
    ∷ field "rkey" u32
    ∷ []

-- IbvSge
abbrev pub ibv_sge : List Field
ibv_sge = field "addr" u64 ∷ field "length" u32 ∷ field "lkey" u32 ∷ []

-- IbvRdmaWr
abbrev pub ibv_rdma_wr : List Field
ibv_rdma_wr = field "remote_addr" u64 ∷ field "rkey" u32 ∷ []

-- SendWrOp: a union of one field has that field's layout.
abbrev pub send_wr_op : Abi
send_wr_op = repr_c ibv_rdma_wr

-- IbvSendWr
abbrev pub ibv_send_wr : List Field
ibv_send_wr =
    field "wr_id" u64
    ∷ field "next" pointer
    ∷ field "sg_list" pointer
    ∷ field "num_sge" c_int
    ∷ field "opcode" c_int
    ∷ field "send_flags" c_uint
    ∷ field "imm_data" u32
    ∷ field "wr" send_wr_op
    ∷ []

-- IbvWc
abbrev pub ibv_wc : List Field
ibv_wc =
    field "wr_id" u64
    ∷ field "status" c_int
    ∷ field "opcode" c_int
    ∷ field "vendor_err" u32
    ∷ field "byte_len" u32
    ∷ field "imm_data" u32
    ∷ field "qp_num" u32
    ∷ field "src_qp" u32
    ∷ field "wc_flags" c_uint
    ∷ field "pkey_index" u16
    ∷ field "slid" u16
    ∷ field "sl" u8
    ∷ field "dlid_path_bits" u8
    ∷ []

-- IbvQpCap
abbrev pub ibv_qp_cap : List Field
ibv_qp_cap =
    field "max_send_wr" u32
    ∷ field "max_recv_wr" u32
    ∷ field "max_send_sge" u32
    ∷ field "max_recv_sge" u32
    ∷ field "max_inline_data" u32
    ∷ []

-- IbvQpInitAttr
abbrev pub ibv_qp_init_attr : List Field
ibv_qp_init_attr =
    field "qp_context" pointer
    ∷ field "send_cq" pointer
    ∷ field "recv_cq" pointer
    ∷ field "srq" pointer
    ∷ field "cap" (repr_c ibv_qp_cap)
    ∷ field "qp_type" c_int
    ∷ field "sq_sig_all" c_int
    ∷ []

-- RdmaCmId
abbrev pub rdma_cm_id : List Field
rdma_cm_id =
    field "verbs" pointer
    ∷ field "channel" pointer
    ∷ field "context" pointer
    ∷ field "qp" pointer
    ∷ []

-- RdmaCmEvent
abbrev pub rdma_cm_event : List Field
rdma_cm_event =
    field "id" pointer ∷ field "listen_id" pointer ∷ field "event" c_int ∷ field "status" c_int ∷ []

-- RdmaConnParam
abbrev pub rdma_conn_param : List Field
rdma_conn_param =
    field "private_data" pointer
    ∷ field "private_data_len" u8
    ∷ field "responder_resources" u8
    ∷ field "initiator_depth" u8
    ∷ field "flow_control" u8
    ∷ field "retry_count" u8
    ∷ field "rnr_retry_count" u8
    ∷ field "srq" u8
    ∷ field "qp_num" u32
    ∷ []

-- SockaddrIn
abbrev pub sockaddr_in : List Field
sockaddr_in =
    field "sin_family" u16
    ∷ field "sin_port" u16
    ∷ field "sin_addr" (array u8 4)
    ∷ field "sin_zero" (array u8 8)
    ∷ []

-- The structures that have fields.
pub data Struct : Type 0 where
  ibv_qp_struct : Struct
  ibv_cq_struct : Struct
  ibv_context_ops_struct : Struct
  ibv_context_struct : Struct
  ibv_mr_struct : Struct
  ibv_sge_struct : Struct
  ibv_rdma_wr_struct : Struct
  ibv_send_wr_struct : Struct
  ibv_wc_struct : Struct
  ibv_qp_cap_struct : Struct
  ibv_qp_init_attr_struct : Struct
  rdma_cm_id_struct : Struct
  rdma_cm_event_struct : Struct
  rdma_conn_param_struct : Struct
  sockaddr_in_struct : Struct

abbrev pub fields_of : Struct → List Field
fields_of ibv_qp_struct = ibv_qp
fields_of ibv_cq_struct = ibv_cq
fields_of ibv_context_ops_struct = ibv_context_ops
fields_of ibv_context_struct = ibv_context
fields_of ibv_mr_struct = ibv_mr
fields_of ibv_sge_struct = ibv_sge
fields_of ibv_rdma_wr_struct = ibv_rdma_wr
fields_of ibv_send_wr_struct = ibv_send_wr
fields_of ibv_wc_struct = ibv_wc
fields_of ibv_qp_cap_struct = ibv_qp_cap
fields_of ibv_qp_init_attr_struct = ibv_qp_init_attr
fields_of rdma_cm_id_struct = rdma_cm_id
fields_of rdma_cm_event_struct = rdma_cm_event
fields_of rdma_conn_param_struct = rdma_conn_param
fields_of sockaddr_in_struct = sockaddr_in
