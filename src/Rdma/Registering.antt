-- ===== src/Rdma/Registering.antt =====
-- Registrations: what is registered, and what is refused.
use rdmalib.Base.{ℕ, ◌<◌, ◌≡◌, some, Option-cases, inl, inr, [], ◌∷◌, ◌++◌, arith}
use rdmalib.Base.Io.{ok, err, invalid_input}
use rdmalib.Base.Exec.{continue}
use rdmalib.Rdma.Calls.{Library, Host, ask, call, check_ptr, ibv_reg_mr}
use rdmalib.Rdma.Domain.{MemoryRegion, ProtectionDomain, access, register_addr}
use rdmalib.Rdma.OneSided.{Connection, connection_register_addr, protection_domain, expect}

-- A region registered in `domain`: exactly the memory asked for, under the keys of the device, by one
-- call.
pub record Registered (lib : Library) (domain : ProtectionDomain) (start bytes : ℕ)
    (h : Host lib.World) (mr : MemoryRegion) (h' : Host lib.World) : Type 0 where
  pub positive : 0 < bytes
  pub pd : mr.pd ≡ domain.pd
  pub addr : mr.addr ≡ start
  pub size : mr.size ≡ bytes
  pub log : h'.log ≡ h.log ++ (ibv_reg_mr domain.pd start bytes access ∷ [])
  pub rkey : mr.rkey ≡ (lib.respond (ibv_reg_mr domain.pd start bytes access) h.world).0.rkey
  pub world : h'.world ≡ (lib.respond (ibv_reg_mr domain.pd start bytes access) h.world).1

module _ (lib : Library) (domain : ProtectionDomain) (addr size : ℕ) (h : Host lib.World) where
  -- A registration that succeeds is of a positive size: it registers exactly the memory asked for,
  -- in the domain asked for, by one call, and reports the device's key.
  pub register_addr-ok :
      {mr : MemoryRegion} {h' : Host lib.World}
      → register_addr lib domain addr size h ≡ (ok mr, h')
      → Registered lib domain addr size h mr h'
  unfolding register_addr call ask check_ptr
  register_addr-ok e = ground arith

  -- An empty region is refused without a call.
  pub register_addr_empty : size ≡ 0 → register_addr lib domain addr size h ≡ (err invalid_input, h)
  unfolding register_addr
  register_addr_empty e = rw e

module _ (lib : Library) (conn : Connection) (addr size : ℕ) (h : Host lib.World) where
  pub connection_register_addr-ok :
      {mr : MemoryRegion} {h' : Host lib.World}
      → connection_register_addr lib conn addr size h ≡ (ok mr, h')
      → (pd : ProtectionDomain) × (conn.pd ≡ some pd) × Registered lib pd addr size h mr h'
  unfolding connection_register_addr protection_domain expect
  connection_register_addr-ok e = elim (Option-cases conn.pd) [
    | inl n ↦ cc (rw (n, continue) at e)
    | inr (pd, p) ↦ (pd, p, register_addr-ok lib pd addr size h (rw (p, continue) at e))
  ]
