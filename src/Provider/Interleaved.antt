-- ===== src/Provider/Interleaved.antt =====
-- The provider's threads in any order, lock by lock: what every tuple and every answer reaches.
use rdmalib.Base.{ℕ, ◌≡◌, some}
use rdmalib.Base.Io.{ok}
use rdmalib.Base.Map.{Map, get, nat_key, pair_key}
use rdmalib.Rdma.Calls.{Library}
use rdmalib.Rdma.Domain.{MemoryRegion, tuple}
use rdmalib.Rdma.Establishing.{Joins}
use rdmalib.Provider.State.{GroupEntry, Shared}
use rdmalib.Provider.Evolving.{Evolves}
use rdmalib.Provider.Joining.{IsGrouped}
use rdmalib.Provider.Service.{group_pd}
use rdmalib.Provider.Phases.{finished}
use rdmalib.Provider.Threads.{Rendezvous, waiting, at_domain, at_accept, at_join, Thread, Crowd}
use rdmalib.Provider.Settled.{IsSettled}
use rdmalib.Provider.Sound.{IsSound}

-- What the service knows in its rendezvous, which no other thread can change.
abbrev IsCurrent : Map ℕ GroupEntry → Rendezvous → Type 0
IsCurrent groups waiting = Unit {0}
IsCurrent groups (at_domain group) = Unit {0}
IsCurrent groups (at_accept group pd) = pd ≡ group_pd (get group groups)
IsCurrent groups (at_join group conn) = Joins (group_pd (get group groups)) conn.pd

record Accepted (lib : Library) (a b : Shared) (r : Rendezvous) : Type 0 where
  evolves : Evolves a b
  grouped : IsGrouped b.groups
  current : IsCurrent b.groups r

abbrev IsSettledIn : Shared → Thread → Type 0
IsSettledIn shared t = IsSettled shared t.id t.group t.phase

-- What holds between any two steps.
record IsOrderly (lib : Library) (y : Crowd lib) : Type 0 where
  sound : IsSound y.provider
  settled : (i : ℕ) → IsSettledIn y.provider.shared (y.threads i)
  current : IsCurrent y.provider.shared.groups y.service

module _ (lib : Library) where
  -- A tuple of a region for a group, as the provider holds it or as a thread has it as its answer.
  pub data Known (y : Crowd lib) (id group : ℕ) (t : ℕ × ℕ × ℕ) : Type 0 where
    held :
        (mr : MemoryRegion)
        → get (id, group) y.provider.shared.tuples ≡ some mr
        → tuple mr ≡ t
        → Known y id group t
    answered :
        (i : ℕ)
        → y.threads i ≡ record { id = id; group = group; phase = finished (ok (some t)) }
        → Known y id group t
