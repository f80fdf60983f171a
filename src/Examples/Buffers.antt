-- ===== src/Examples/Buffers.antt =====
-- Tests of shared buffers: borrows, and registrations past the last id.
use rdmalib.Base.{false, arith, ◌≡◌, refl, some, List, [], ◌∷◌}
use rdmalib.Base.Io.{ok}
use rdmalib.Base.Map.{get, insert, nat_key, pair_key}
use rdmalib.Meta.Message.{Str}
use rdmalib.Rdma.Domain.{tuple}
use rdmalib.Provider.Wrapping.{register_all, register_typed_wrapped}
use rdmalib.Examples.Device.{device, idle, domain, memory}
use rdmalib.Examples.Exchanges.{info}
use rdmalib.Provider.State.{Vector, Provider, tuple_of, u8, new, region_info, register_typed}
use rdmalib.Provider.Buffers.{Handle, Application, handed_out, share, borrow}
use rdmalib.Examples.Lifetimes.{buffer}

abbrev empty : Application
empty = record { provider = new; cells = [] }

abbrev handle : Handle
handle = record { id = 0; owner = 0; view = 1 }

abbrev stocked : Application
stocked = (share u8.name 1 buffer empty).1

abbrev borrowed : Application
borrowed = (borrow handle stocked).1

shared : share u8.name 1 buffer empty ≡ (ok handle, stocked)
unfolding share handed_out register_typed region_info new insert
shared = refl

-- A provider that has given out all ids but the last, and holds a tuple of region 0.
abbrev full : Provider
full = record {
  shared = record {
    catalog = (0, info) ∷ [];
    groups = (5, record { pd = domain; connections = [] }) ∷ [];
    tuples = ((0, 5), memory) ∷ [];
  };
  owners = (0, buffer) ∷ [];
  service = false;
  next_id = 4294967295;
}

abbrev longer : Vector
longer = record { addr = 8192; len = 128; elem = u8 }

abbrev last_one : List (Str × Vector)
last_one = (u8.name, buffer) ∷ []

tuple_held : get (0, 5) full.shared.tuples ≡ some memory
unfolding get
tuple_held = refl

abbrev after_wrap : Provider
after_wrap = (register_typed u8.name longer (register_all last_one full)).1

register_typed_wrapped_example :
    ((register_typed u8.name longer (register_all last_one full)).0 ≡ ok 0)
    × (get 0 after_wrap.owners ≡ some longer)
    × (tuple_of device 0 5 (record { shared = after_wrap.shared; host = idle })
        ≡ (ok (some (tuple memory)), record { shared = after_wrap.shared; host = idle }))
register_typed_wrapped_example =
    register_typed_wrapped device full 0 5 memory last_one u8.name longer idle (omega arith)
      (omega arith, tt) (omega arith) tuple_held (omega arith)
