-- ===== src/Remote/Client.antt =====
-- src/readers.rs: `RemoteMemoryProvider`, its sessions and its caches.
use rdmalib.Base.{
  ℕ, Option, none, some, Bool, false, List, [], ◌∷◌, ◌++◌, length, ◌==◌, ◌||◌, if◌then◌else◌,
}
use rdmalib.Base.Io.{IoResult, ok, err, other}
use rdmalib.Base.Exec.{Exec, ◌>>=◌, ◌>>◌, pure, lift}
use rdmalib.Base.Map as Map
use rdmalib.Base.Map.{Map, insert, Eq, nat_key, pair_key, list_key}
use rdmalib.Meta.Message.{
  Str, RegionDesc, TupleDesc, Message, hello, welcome, want_group, update, metadata, tuples,
  protocol_version,
}
use rdmalib.Meta.Frame.{Channel, send, receive}
use rdmalib.Remote.Region.{Slots, RemoteMemoryRegion}

pub record CachedRegion : Type 0 where
  pub remote_addr : ℕ
  pub size : ℕ
  pub rkey : ℕ
  pub group : ℕ
  pub elem_size : ℕ
  pub elem_align : ℕ
  pub elem_type : Str

-- RemoteMemoryRegionMetadata
pub record RegionMetadata : Type 0 where
  pub name : Str
  pub id : ℕ
  pub size : ℕ
  pub elem_size : ℕ
  pub elem_align : ℕ
  pub elem_type : Str

-- `connection` is the index of the session's cell.
pub record GroupSession : Type 0 where
  pub channel : Option Channel
  pub connection : ℕ

-- The address is in the arguments of `update`.
pub record RemoteMemoryProvider : Type 0 where
  pub sessions : Map ℕ GroupSession
  pub metadata : List RegionMetadata
  pub regions : Map (Str × ℕ) (List CachedRegion)

abbrev pub new_provider : RemoteMemoryProvider
new_provider = record { sessions = []; metadata = []; regions = [] }

unfoldable pub region_metadata : List RegionDesc → List RegionMetadata
region_metadata [] = []
region_metadata (region ∷ regions) =
    (record {
      name = region.name;
      id = region.id;
      size = region.size;
      elem_size = region.elem_size;
      elem_align = region.elem_align;
      elem_type = region.elem_type;
    })
    ∷ region_metadata regions

-- The map of the tuples by region; the last of a region counts.
unfoldable pub tuples_by_id : Map ℕ TupleDesc → List TupleDesc → Map ℕ TupleDesc
tuples_by_id map [] = map
tuples_by_id map (tuple ∷ descs) = tuples_by_id (insert tuple.region_id tuple map) descs

-- `entry.retain(|cached| cached.group != group)`
unfoldable pub without : ℕ → List CachedRegion → List CachedRegion
without group [] = []
without group (cached ∷ rest) =
    let kept = without group rest in if cached.group == group then kept else cached ∷ kept

unfoldable pub or_default : {A : Type 0} → Option (List A) → List A
or_default none = []
or_default (some xs) = xs

abbrev pub cached_region : ℕ → RegionDesc → TupleDesc → CachedRegion
cached_region group region tuple = record {
  remote_addr = tuple.remote_addr;
  size = tuple.size;
  rkey = tuple.rkey;
  group = group;
  elem_size = region.elem_size;
  elem_align = region.elem_align;
  elem_type = region.elem_type;
}

unfoldable pub push_cached :
    ℕ → RegionDesc → Option TupleDesc → List CachedRegion → List CachedRegion
push_cached group region none entry = entry
push_cached group region (some tuple) entry = entry ++ (cached_region group region tuple ∷ [])

abbrev pub region_key : RegionDesc → Str × ℕ
region_key region = (region.name, region.id)

-- One round of the loop over the regions.
unfoldable pub ingest_region :
    ℕ
    → Map ℕ TupleDesc
    → RegionDesc
    → Map (Str × ℕ) (List CachedRegion)
    → Map (Str × ℕ) (List CachedRegion)
ingest_region group by_id region active =
    insert (region_key region)
      (push_cached group region (Map.get region.id by_id)
        (without group (or_default (Map.get (region_key region) active))))
      active

unfoldable pub ingest_regions :
    ℕ
    → Map ℕ TupleDesc
    → List RegionDesc
    → Map (Str × ℕ) (List CachedRegion)
    → Map (Str × ℕ) (List CachedRegion)
ingest_regions group by_id [] active = active
ingest_regions group by_id (region ∷ regions) active =
    ingest_regions group by_id regions (ingest_region group by_id region active)

abbrev pub key_eq : Eq (Str × ℕ)
key_eq = pair_key

-- `live.contains(key)`
unfoldable pub is_live : List RegionDesc → Str × ℕ → Bool
is_live [] key = false
is_live (region ∷ regions) key = key_eq.beq (region_key region) key || is_live regions key

-- `active.retain(..)`
unfoldable pub retain_live : {V : Type 0} → List RegionDesc → Map (Str × ℕ) V → Map (Str × ℕ) V
retain_live regions [] = []
retain_live regions ((key, v) ∷ rest) =
    let kept = retain_live regions rest in if is_live regions key then (key, v) ∷ kept else kept

abbrev pub refilled :
    ℕ → List RegionDesc → List TupleDesc → RemoteMemoryProvider → RemoteMemoryProvider
refilled group regions descs p = record p {
  metadata = region_metadata regions;
  regions = retain_live regions (ingest_regions group (tuples_by_id [] descs) regions p.regions);
}

unfoldable pub ingest : ℕ → Message × Message → Exec RemoteMemoryProvider (Unit {0})
ingest group (metadata regions, tuples served descs) p =
    if served == group then (ok tt, refilled group regions descs p) else (err other, p)
ingest group _ p = (err other, p)

unfoldable pub find_group : Option ℕ → List CachedRegion → Option CachedRegion
find_group group [] = none
find_group none (cached ∷ rest) = some cached
find_group (some g) (cached ∷ rest) =
    let found = find_group (some g) rest in if cached.group == g then some cached else found

-- The cell of a region: its session's, or a fresh empty one.
unfoldable pub slot_for : Option GroupSession → Slots → ℕ × Slots
slot_for (some session) slots = (session.connection, slots)
slot_for none slots = (length slots, slots ++ (none ∷ []))

unfoldable pub get_remote_mr :
    RegionMetadata → Option ℕ → RemoteMemoryProvider → Slots → Option RemoteMemoryRegion × Slots
get_remote_mr md group p slots =
    elim (find_group group (or_default (Map.get (md.name, md.id) p.regions))) [
      | none ↦ (none, slots)
      | some cached ↦
          let (slot, slots') = slot_for (Map.get cached.group p.sessions) slots in
          (
            some (record {
              connection = slot;
              remote_addr = cached.remote_addr;
              size = cached.size;
              rkey = cached.rkey;
              group = cached.group;
              elem_size = cached.elem_size;
              elem_align = cached.elem_align;
              elem_type = cached.elem_type;
            }),
            slots',
          )
    ]

unfoldable pub receive_exchange : Exec Channel (Message × Message)
receive_exchange = do catalog ← receive; descs ← receive; pure (catalog, descs)

unfoldable pub refresh : Exec Channel (Message × Message)
refresh = do send update; receive_exchange

unfoldable pub greeted : Message → IoResult (Unit {0})
greeted (welcome version) = if version == protocol_version then ok tt else err other
greeted _ = err other

-- The greeting and the group join of a fresh session.
unfoldable pub join_group : ℕ → Exec Channel (Unit {0})
join_group group = do
  send (hello protocol_version)
  reply ← receive
  lift (greeted reply)
  send (want_group group)
