-- ===== src/Remote/Bounds.antt =====
-- Which reads and writes pass the guards of a region, and what they then reach.
use rdmalib.Base.{Bool, leb, if◌then◌else◌, ℕ, ◌+◌, ◌-◌, ◌*◌, ◌^◌, ◌≤◌, ◌<◌, ◌≡◌, ◌==◌, ◌&&◌, arith}
use rdmalib.Base.Io.{ok, err, invalid_input}
use rdmalib.Base.Words.{as_u32, wrapping_add, saturating_add}
use rdmalib.Remote.Pod.{Layout, Buffer}
use rdmalib.Remote.Region.{RemoteMemoryRegion, Transfer, plan_read, plan_write}

-- A region that lies in a 64-bit address space.
pub record IsMapped (region : RemoteMemoryRegion) : Type 0 where
  pub size : region.size < 2 ^ 64 - 1
  pub range : region.remote_addr + region.size ≤ 2 ^ 64

abbrev pub reach : Buffer → RemoteMemoryRegion → ℕ → ℕ → Transfer
reach buf region offset len = record {
  local_addr = buf.addr;
  remote_addr = region.remote_addr + offset;
  len = len;
}

-- Whether an access of `len` bytes at `offset` lies in the region, in unbounded arithmetic.
abbrev pub in_region : RemoteMemoryRegion → ℕ → ℕ → Bool
in_region region offset len = leb (offset + len) region.size

-- In a region within the address space, a byte read of a positive size is admitted exactly when it
-- fits the buffer and the region, in unbounded arithmetic, and then reaches the bytes at its
-- offset. Any other is an invalid input.
pub plan_read_exact :
    (region : RemoteMemoryRegion) (offset size : ℕ) (buf : Buffer)
    → IsMapped region
    → 0 < size
    → plan_read region offset size buf ≡ (
        if leb size buf.bytes && in_region region offset size
        then ok (reach buf region offset size)
        else err invalid_input)
unfolding plan_read saturating_add wrapping_add
plan_read_exact region offset size buf mapped pos = ground arith

-- In a region within the address space, a write of a buffer that is not empty is admitted exactly
-- when it fits the region, in unbounded arithmetic, and then reaches the bytes at its offset. Any
-- other is an invalid input.
pub plan_write_exact :
    (region : RemoteMemoryRegion) (offset : ℕ) (buf : Buffer)
    → IsMapped region
    → 0 < buf.bytes
    → plan_write region offset buf ≡ (
        if in_region region offset buf.bytes
        then ok (reach buf region offset buf.bytes)
        else err invalid_input)
unfolding plan_write saturating_add wrapping_add
plan_write_exact region offset buf mapped pos = ground arith

-- What the language guarantees of a type: its size is a multiple of its alignment.
pub record IsLayout (T : Layout) : Type 0 where
  pub stride : ℕ
  pub sized : T.size ≡ stride * T.align

abbrev pub matches : Layout → RemoteMemoryRegion → Bool
matches T region = as_u32 T.size == region.elem_size && as_u32 T.align == region.elem_align
