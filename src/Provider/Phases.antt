-- ===== src/Provider/Phases.antt =====
-- src/providers.rs: `tuple_of` lock by lock: where a thread is in it, and its steps.
use rdmalib.Base.{ℕ, Option, none, some}
use rdmalib.Base.Io.{IoResult, ok, err}
use rdmalib.Base.Map.{get, nat_key, pair_key}
use rdmalib.Rdma.Calls.{Library}
use rdmalib.Rdma.Domain.{MemoryRegion, ProtectionDomain, register_addr, tuple}
use rdmalib.Provider.State.{RegionInfo, GroupEntry, Sharing, insert_tuple}

-- Where a thread is in `tuple_of`, with what it has learnt. Each step takes one lock, or none.
pub data Phase : Type 0 where
  at_tuples : Phase
  at_groups : Phase
  at_catalog : ProtectionDomain → Phase
  at_register : ProtectionDomain → RegionInfo → Phase
  at_insert : MemoryRegion → Phase
  finished : IoResult (Option (ℕ × ℕ × ℕ)) → Phase

abbrev pub Answered : Type 0
Answered = IoResult (Option (ℕ × ℕ × ℕ))

unfoldable pub from_tuples : Option MemoryRegion → Phase
from_tuples (some mr) = finished (ok (some (tuple mr)))
from_tuples none = at_groups

unfoldable pub from_groups : Option GroupEntry → Phase
from_groups none = finished (ok none)
from_groups (some entry) = at_catalog entry.pd

unfoldable pub from_catalog : ProtectionDomain → Option RegionInfo → Phase
from_catalog pd none = finished (ok none)
from_catalog pd (some info) = at_register pd info

unfoldable pub from_register : IoResult MemoryRegion → Phase
from_register (err e) = finished (err e)
from_register (ok mr) = at_insert mr

module _ (lib : Library) (id group : ℕ) where
  -- One step of a thread that runs `tuple_of(id, group)`.
  unfoldable pub step : Phase → Sharing lib → Phase × Sharing lib
  unfolding from_tuples from_groups from_catalog from_register
  step at_tuples s = (from_tuples (get (id, group) s.shared.tuples), s)
  step at_groups s = (from_groups (get group s.shared.groups), s)
  step (at_catalog pd) s = (from_catalog pd (get id s.shared.catalog), s)
  step (at_register pd info) s =
      let (r, h) = register_addr lib pd info.remote_addr info.size s.host in
      (from_register r, record s { host = h })
  step (at_insert mr) s = (finished (ok (some (tuple mr))), insert_tuple lib (id, group) mr s)
  step (finished r) s = (finished r, s)
