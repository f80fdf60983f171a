-- ===== src/Examples/Interleavings.antt =====
-- Tests of the provider's threads in a given order.
use rdmalib.Base.{ℕ}
use rdmalib.Base.Map.{nat_key, pair_key}
use rdmalib.Provider.State.{u8, register_typed}
use rdmalib.Provider.Phases.{at_tuples, step}
use rdmalib.Provider.Threads.{
  accept_step, Crowd, shared_by, moved, begun, placed, at_domain, accepted,
}
use rdmalib.Examples.Device.{device}
use rdmalib.Examples.Lifetimes.{buffer, listener, requested}

-- A region is registered, a reader is accepted into group 5, and two threads begin to look up the
-- same tuple.
abbrev y₀ : Crowd device
y₀ = begun device requested

abbrev registered : Crowd device
registered = record y₀ { provider = (register_typed u8.name buffer y₀.provider).1 }

abbrev serving : Crowd device → Crowd device
serving y = accepted device y (accept_step device listener y.service (shared_by device y))

abbrev joined : Crowd device
joined = serving (serving (serving (record registered { service = at_domain 5 })))

abbrev asking : Crowd device → ℕ → Crowd device
asking y i = record y {
  threads = placed y.threads i (record { id = 0; group = 5; phase = at_tuples });
}

abbrev after : Crowd device → ℕ → Crowd device
after y i =
    moved device y i
      (step device (y.threads i).id (y.threads i).group (y.threads i).phase (shared_by device y))

-- One step of each thread.
abbrev both : Crowd device → Crowd device
both y = after (after y 0) 1

abbrev raced : Crowd device
raced = both (both (both (both (both (asking (asking joined 0) 1)))))
