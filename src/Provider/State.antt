-- ===== src/Provider/State.antt =====
-- src/providers.rs: the provider's state, its registrations, its tuples and its catalog messages.
use rdmalib.Base.{
  ℕ, ◌+◌, ◌*◌, ◌%◌, ◌^◌, Bool, false, Option, none, some, List, [], ◌∷◌, ◌++◌, ◌==◌, if◌then◌else◌,
}
use rdmalib.Base.Io.{IoResult, ok, err, panicked}
use rdmalib.Base.Exec.{Exec}
use rdmalib.Base.Words.{as_u32}
use rdmalib.Base.Map.{Map, get, insert, nat_key, pair_key}
use rdmalib.Meta.Message.{Str, RegionDesc, TupleDesc, Message, metadata, tuples}
use rdmalib.Rdma.Calls.{Library, Host}
use rdmalib.Rdma.Domain.{MemoryRegion, ProtectionDomain, register_addr, drop_region, tuple}
use rdmalib.Rdma.OneSided.{Connection}
use rdmalib.Remote.Pod.{Layout}

pub record RegionInfo : Type 0 where
  pub name : Str
  pub remote_addr : ℕ
  pub size : ℕ
  pub elem_size : ℕ
  pub elem_align : ℕ
  pub elem_type : Str

pub record GroupEntry : Type 0 where
  pub pd : ProtectionDomain
  pub connections : List Connection

pub record Shared : Type 0 where
  pub catalog : Map ℕ RegionInfo
  pub groups : Map ℕ GroupEntry
  pub tuples : Map (ℕ × ℕ) MemoryRegion

-- A `Vec` moved into the provider: where its elements are, how many, and of which type.
pub record Vector : Type 0 where
  pub addr : ℕ
  pub len : ℕ
  pub elem : Layout

-- `addr` is in the service's arguments; `service` is whether one runs.
pub record Provider : Type 0 where
  pub shared : Shared
  pub owners : Map ℕ Vector
  pub service : Bool
  pub next_id : ℕ

abbrev pub new_shared : Shared
new_shared = record { catalog = []; groups = []; tuples = [] }

unfoldable pub new : Provider
new = record { shared = new_shared; owners = []; service = false; next_id = 0 }

unfoldable pub region_info : Str → Vector → RegionInfo
region_info name buffer = record {
  name = name;
  remote_addr = buffer.addr;
  size = buffer.len * buffer.elem.size;
  elem_size = as_u32 buffer.elem.size;
  elem_align = as_u32 buffer.elem.align;
  elem_type = buffer.elem.name;
}

-- `register_typed`; the handle is the region's id. The counter wraps, as in a release build.
unfoldable pub register_typed : Str → Vector → Exec Provider ℕ
unfolding region_info
register_typed name buffer p = if buffer.elem.size == 0 then (err panicked, p) else (
  ok p.next_id,
  record p {
    next_id = (p.next_id + 1) % 2 ^ 32;
    owners = insert p.next_id buffer p.owners;
    shared = record (p.shared) {
      catalog = insert p.next_id (region_info name buffer) p.shared.catalog;
    };
  },
)

abbrev pub u8 : Layout
u8 = record { size = 1; align = 1; name = b'u' ∷ b'8' ∷ [] }

-- `register`: `len` bytes at `addr`
unfoldable pub register : Str → ℕ → ℕ → Exec Provider ℕ
unfolding register_typed
register name addr len = register_typed name (record { addr = addr; len = len; elem = u8 })

module _ (lib : Library) where
  -- The shared state and the host, as a thread of the provider works on them.
  pub record Sharing : Type 0 where
    pub shared : Shared
    pub host : Host lib.World

  -- The registration that an insertion replaces is dropped.
  unfoldable pub drop_replaced : Option MemoryRegion → Host lib.World → Host lib.World
  drop_replaced none h = h
  drop_replaced (some old) h = (drop_region lib old h).1

  -- `self.tuples.lock().unwrap().insert((id, group), mr)`
  unfoldable pub insert_tuple : ℕ × ℕ → MemoryRegion → Sharing → Sharing
  unfolding drop_replaced
  insert_tuple key mr s = record {
    shared = record (s.shared) { tuples = insert key mr s.shared.tuples };
    host = drop_replaced (get key s.shared.tuples) s.host;
  }

  -- The end of `tuple_of`, after the registration.
  unfoldable pub keep_tuple :
      ℕ × ℕ
      → Shared
      → IoResult MemoryRegion × Host lib.World
      → IoResult (Option (ℕ × ℕ × ℕ)) × Sharing
  unfolding insert_tuple
  keep_tuple key shared (err e, h) = (err e, record { shared = shared; host = h })
  keep_tuple key shared (ok mr, h) =
      (ok (some (tuple mr)), insert_tuple key mr (record { shared = shared; host = h }))

  -- `Shared::tuple_of`, run by one thread alone.
  unfoldable pub tuple_of : ℕ → ℕ → Exec Sharing (Option (ℕ × ℕ × ℕ))
  unfolding keep_tuple
  tuple_of id group s = elim (get (id, group) s.shared.tuples) [
    | some mr ↦ (ok (some (tuple mr)), s)
    | none ↦ elim (get group s.shared.groups) [
      | none ↦ (ok none, s)
      | some entry ↦ elim (get id s.shared.catalog) [
        | none ↦ (ok none, s)
        | some info ↦
            keep_tuple (id, group) s.shared
              (register_addr lib entry.pd info.remote_addr info.size s.host)
      ]
    ]
  ]

  unfoldable pub region_desc : ℕ → RegionInfo → RegionDesc
  region_desc id info = record {
    id = id;
    name = info.name;
    size = info.size;
    elem_size = info.elem_size;
    elem_align = info.elem_align;
    elem_type = info.elem_type;
  }

  -- `if let Ok(Some(..)) = self.tuple_of(..) { tuples.push(..) }`
  unfoldable pub push_tuple : ℕ → List TupleDesc → IoResult (Option (ℕ × ℕ × ℕ)) → List TupleDesc
  push_tuple id descs (ok (some (remote_addr, size, rkey))) =
      descs
      ++ ((record { region_id = id; remote_addr = remote_addr; size = size; rkey = rkey }) ∷ [])
  push_tuple id descs (ok none) = descs
  push_tuple id descs (err e) = descs

  -- The loop over the snapshot of the catalog.
  unfoldable pub describe :
      ℕ
      → List (ℕ × RegionInfo)
      → List RegionDesc
      → List TupleDesc
      → Sharing
      → (List RegionDesc × List TupleDesc) × Sharing
  unfolding region_desc push_tuple
  describe group [] regions descs s = ((regions, descs), s)
  describe group ((id, info) ∷ rest) regions descs s =
      let (r, s') = tuple_of id group s in
      describe group rest (regions ++ (region_desc id info ∷ [])) (push_tuple id descs r) s'

  unfoldable pub catalog_and_tuples : ℕ → Sharing → (Message × Message) × Sharing
  catalog_and_tuples group s =
      let ((regions, descs), s') = describe group s.shared.catalog [] [] s in
      ((metadata regions, tuples group descs), s')
