-- ===== src/Remote/Transfers.antt =====
-- The reads of a region as a whole: what a success has done, and what is refused.
use rdmalib.Base.{ℕ, ◌+◌, ◌<◌, ◌≡◌, ◌⊎◌, false, some, leb, ◌&&◌, arith}
use rdmalib.Base.Io.{err, invalid_input}
use rdmalib.Rdma.Calls.{Library}
use rdmalib.Remote.Pod.{Buffer}
use rdmalib.Remote.Region.{RemoteMemoryRegion, Reader, transfer, read_into}
use rdmalib.Remote.Bounds.{IsMapped, in_region, plan_read_exact}

module _ (lib : Library) (region : RemoteMemoryRegion) (offset size : ℕ) (buf : Buffer) where
  -- In a region within the address space, a read of a positive size that does not fit its buffer or
  -- its region is an invalid input; no call is made and no state changes.
  pub read_into_rejects :
      (fuel : ℕ) (s : Reader lib)
      → IsMapped region
      → 0 < size
      → (buf.bytes < size) ⊎ (region.size < offset + size)
      → read_into lib fuel region offset size buf s ≡ some (err invalid_input, s)
  unfolding read_into transfer
  read_into_rejects fuel s mapped pos bad =
      let refused : (leb size buf.bytes && in_region region offset size) ≡ false = ground arith in
      rw (plan_read_exact region offset size buf mapped pos, refused)
