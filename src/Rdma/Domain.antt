-- ===== src/Rdma/Domain.antt =====
-- src/rdma/verbs.rs: memory regions and protection domains.
use rdmalib.Base.{ℕ, ◌+◌, ◌==◌, if◌then◌else◌}
use rdmalib.Base.Io.{invalid_input}
use rdmalib.Base.Exec.{Exec, ◌>>=◌, ◌>>◌, pure, raise, lift}
use rdmalib.Rdma.Calls.{Library, Host, call, check_ptr, ibv_alloc_pd, ibv_reg_mr, ibv_dereg_mr}

pub record MemoryRegion : Type 0 where
  pub mr : ℕ
  pub pd : ℕ
  pub addr : ℕ
  pub size : ℕ
  pub lkey : ℕ
  pub rkey : ℕ

unfoldable pub tuple : MemoryRegion → ℕ × ℕ × ℕ
tuple mr = (mr.addr, mr.size, mr.rkey)

pub record ProtectionDomain : Type 0 where
  pub context : ℕ
  pub pd : ℕ

-- IBV_ACCESS_LOCAL_WRITE | IBV_ACCESS_REMOTE_WRITE | IBV_ACCESS_REMOTE_READ
-- | IBV_ACCESS_REMOTE_ATOMIC
abbrev pub access : ℕ
access = 1 + 2 + 4 + 8

module _ (lib : Library) where
  unfoldable pub alloc : ℕ → Exec (Host lib.World) ProtectionDomain
  alloc context = do
    ptr ← call lib (ibv_alloc_pd context)
    pd ← lift (check_ptr ptr)
    pure (record { context = context; pd = pd })

  unfoldable pub register_addr : ProtectionDomain → ℕ → ℕ → Exec (Host lib.World) MemoryRegion
  register_addr domain addr size = if size == 0 then raise invalid_input else do
    mr ← call lib (ibv_reg_mr domain.pd addr size access)
    handle ← lift (check_ptr mr.handle)
    pure (record {
      mr = handle;
      pd = domain.pd;
      addr = addr;
      size = size;
      lkey = mr.lkey;
      rkey = mr.rkey;
    })

  -- `Drop for MemoryRegion`
  unfoldable pub drop_region : MemoryRegion → Exec (Host lib.World) (Unit {0})
  drop_region region = do call lib (ibv_dereg_mr region.mr); pure tt
