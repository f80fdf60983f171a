-- ===== src/Examples/Structs.antt =====
-- Tests of the layouts: those of the test module of src/rdma/verbs.rs.
use rdmalib.Base.{ℕ, ◌≡◌, refl, [], ◌∷◌}
use rdmalib.Rdma.Structs.{
  Abi, align_up, offsets, end_of, max_align, repr_c, pointer, ibv_qp, ibv_cq, ibv_context_ops,
  ibv_context, ibv_mr, ibv_sge, ibv_send_wr, ibv_wc, ibv_qp_cap, ibv_qp_init_attr, rdma_cm_id,
  rdma_cm_event, rdma_conn_param, sockaddr_in,
}

abbrev abi : ℕ → ℕ → Abi
abi size align = record { size = size; align = align }

-- `verbs_struct_layouts`: the sizes
verbs_sizes :
    (repr_c ibv_sge ≡ abi 16 8)
    × (repr_c ibv_mr ≡ abi 48 8)
    × (repr_c ibv_send_wr ≡ abi 56 8)
    × (repr_c ibv_wc ≡ abi 48 8)
    × (repr_c ibv_qp_cap ≡ abi 20 4)
    × (repr_c ibv_qp_init_attr ≡ abi 64 8)
    × (repr_c ibv_qp ≡ pointer)
    × (repr_c ibv_cq ≡ pointer)
    × (repr_c ibv_context_ops ≡ abi 208 8)
    × (repr_c sockaddr_in ≡ abi 16 2)
unfolding repr_c align_up end_of max_align
verbs_sizes = (refl, refl, refl, refl, refl, refl, refl, refl, refl, refl)

-- `verbs_struct_layouts`: the offsets
verbs_offsets :
    (offsets 0 ibv_mr ≡ 0 ∷ 8 ∷ 16 ∷ 24 ∷ 32 ∷ 36 ∷ 40 ∷ [])
    × (offsets 0 ibv_send_wr ≡ 0 ∷ 8 ∷ 16 ∷ 24 ∷ 28 ∷ 32 ∷ 36 ∷ 40 ∷ [])
    × (offsets 0 ibv_wc ≡ 0 ∷ 8 ∷ 12 ∷ 16 ∷ 20 ∷ 24 ∷ 28 ∷ 32 ∷ 36 ∷ 40 ∷ 42 ∷ 44 ∷ 45 ∷ [])
    × (offsets 0 ibv_context ≡ 0 ∷ 8 ∷ [])
    × (offsets 0 sockaddr_in ≡ 0 ∷ 2 ∷ 4 ∷ 8 ∷ [])
unfolding offsets repr_c align_up end_of max_align
verbs_offsets = (refl, refl, refl, refl, refl)

-- `cm_struct_layouts`
cm_layouts :
    (repr_c rdma_conn_param ≡ abi 24 8)
    × (repr_c rdma_cm_event ≡ abi 24 8)
    × (offsets 0 rdma_cm_event ≡ 0 ∷ 8 ∷ 16 ∷ 20 ∷ [])
    × (repr_c rdma_cm_id ≡ abi 32 8)
    × (offsets 0 rdma_cm_id ≡ 0 ∷ 8 ∷ 16 ∷ 24 ∷ [])
unfolding offsets repr_c align_up end_of max_align
cm_layouts = (refl, refl, refl, refl, refl)
