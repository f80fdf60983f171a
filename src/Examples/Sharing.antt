-- ===== src/Examples/Sharing.antt =====
-- Tests of the provider.
use rdmalib.Base.{
  ℕ, ◌+◌, ◌^◌, ◌<◌, ◌≡◌, refl, [], ◌∷◌, ◌++◌, none, some, arith, ◌==◌, if◌then◌else◌,
}
use rdmalib.Base.Io.{ok}
use rdmalib.Base.Map.{get, insert, nat_key, pair_key}
use rdmalib.Meta.Message.{tuples}
use rdmalib.Rdma.Calls.{Host, ask, call, check_ptr, ibv_reg_mr, ibv_dereg_mr}
use rdmalib.Rdma.Domain.{MemoryRegion, access, register_addr, tuple}
use rdmalib.Provider.State.{
  RegionInfo, GroupEntry, Shared, Sharing, Vector, u8, new, register_typed, tuple_of, keep_tuple,
  insert_tuple, drop_replaced,
}
use rdmalib.Provider.Registry.{
  IsProvider, new-IsProvider, advertised, register_typed_fresh, register_typed-IsProvider,
}
use rdmalib.Provider.Tuples.{tuple_of_again}
use rdmalib.Provider.Phases.{finished}
use rdmalib.Provider.Race.{raced, tuple_of_race}
use rdmalib.Examples.Device.{device, idle, domain}

abbrev buffer : Vector
buffer = record { addr = 4096; len = 64; elem = u8 }

register_typed_fresh_example :
    ((register_typed u8.name buffer new).0 ≡ ok new.next_id)
    × (get new.next_id new.shared.catalog ≡ none)
    × ((id : ℕ)
        → get id (register_typed u8.name buffer new).1.shared.catalog ≡ (
            if new.next_id == id
            then some (advertised u8.name buffer)
            else get id new.shared.catalog))
    × ((register_typed u8.name buffer new).1.shared.groups ≡ new.shared.groups)
    × ((register_typed u8.name buffer new).1.shared.tuples ≡ new.shared.tuples)
register_typed_fresh_example = register_typed_fresh u8.name buffer new new-IsProvider (omega arith)

-- A region of 64 bytes, and a group that a reader has joined.
abbrev info : RegionInfo
info = record {
  name = u8.name;
  remote_addr = 4096;
  size = 64;
  elem_size = 1;
  elem_align = 1;
  elem_type = u8.name;
}

abbrev entry : GroupEntry
entry = record { pd = domain; connections = [] }

abbrev shared : Shared
shared = record { catalog = (0, info) ∷ []; groups = (5, entry) ∷ []; tuples = [] }

abbrev start : Sharing device
start = record { shared = shared; host = idle }

abbrev memory : MemoryRegion
memory = record { mr = 6; pd = 3; addr = 4096; size = 64; lkey = 60; rkey = 61 }

-- The host after one registration of the region, and after two.
abbrev once : Host ℕ
once = record { world = 0; log = ibv_reg_mr 3 4096 64 access ∷ [] }

abbrev twice : Host ℕ
twice = record { world = 0; log = ibv_reg_mr 3 4096 64 access ∷ ibv_reg_mr 3 4096 64 access ∷ [] }

register_once : register_addr device domain 4096 64 idle ≡ (ok memory, once)
unfolding register_addr call ask check_ptr
register_once = refl

register_twice : register_addr device domain 4096 64 once ≡ (ok memory, twice)
unfolding register_addr call ask check_ptr
register_twice = refl

no_tuple : get (0, 5) shared.tuples ≡ none
unfolding get
no_tuple = refl

joined : get 5 shared.groups ≡ some entry
unfolding get
joined = refl

shared_region : get 0 shared.catalog ≡ some info
unfolding get
shared_region = refl

tuple_of_race_example :
    ((raced device 0 5 start).first ≡ finished (ok (some (tuple memory))))
    × ((raced device 0 5 start).second ≡ finished (ok (some (tuple memory))))
    × (get (0, 5) (raced device 0 5 start).sharing.shared.tuples ≡ some memory)
    × ((raced device 0 5 start).sharing.host.log ≡ twice.log ++ (ibv_dereg_mr 6 ∷ []))
tuple_of_race_example =
    tuple_of_race device 0 5 start entry info memory memory once twice no_tuple joined shared_region
      register_once register_twice

abbrev kept : Sharing device
kept = record { shared = record shared { tuples = ((0, 5), memory) ∷ [] }; host = once }

first_tuple : tuple_of device 0 5 start ≡ (ok (some (4096, 64, 61)), kept)
unfolding tuple_of register_addr call ask check_ptr keep_tuple insert_tuple drop_replaced get insert
    tuple
first_tuple = refl

tuple_of_again_example : tuple_of device 0 5 kept ≡ (ok (some (4096, 64, 61)), kept)
tuple_of_again_example = tuple_of_again device 0 5 start first_tuple

register_typed-IsProvider_example : IsProvider (register_typed u8.name buffer new).1
register_typed-IsProvider_example =
    register_typed-IsProvider u8.name buffer new new-IsProvider (omega arith) new_fits
  where
    new_fits : new.next_id + 1 < 2 ^ 32
    new_fits = unfold new in omega arith
