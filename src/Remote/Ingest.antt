-- ===== src/Remote/Ingest.antt =====
-- The caches after an exchange: what was delivered is what is looked up.
use rdmalib.Base.{
  subst, ℕ, ◌≡◌, ◌⊎◌, inl, inr, refl, sym, ap, ◌∙◌, Option, none, some, true, false, List, [], ◌∷◌,
  ◌++◌, ==_refl, arith,
}
use rdmalib.Base.Io.{IoResult, ok}
use rdmalib.Base.Map.{
  Map, get, nat_key, pair_key, list_key, get-insert_self, get-insert_ne, beq_refl,
}
use rdmalib.Meta.Message.{Str, RegionDesc, TupleDesc, metadata, tuples}
use rdmalib.Remote.Region.{RemoteMemoryRegion, Slots}
use rdmalib.Remote.Client.{
  slot_for, GroupSession, CachedRegion, RemoteMemoryProvider, RegionMetadata, tuples_by_id, without,
  or_default, cached_region, push_cached, region_key, key_eq, ingest_region, ingest_regions,
  is_live, retain_live, refilled, ingest, find_group, get_remote_mr,
}

-- The regions have distinct names and ids, taken together: every key stands once.
abbrev pub KeyAbsent : Str × ℕ → List RegionDesc → Type 0
KeyAbsent key [] = Unit
KeyAbsent key (region ∷ regions) = (¬ (region_key region ≡ key)) × KeyAbsent key regions

abbrev pub KeysDistinct : List RegionDesc → Type 0
KeysDistinct [] = Unit
KeysDistinct (region ∷ regions) = KeyAbsent (region_key region) regions × KeysDistinct regions

-- The region stands in the catalog.
abbrev pub IsListed : RegionDesc → List RegionDesc → Type 0
IsListed region [] = ⊥
IsListed region (r ∷ rs) = (r ≡ region) ⊎ IsListed region rs

pub get-retain_live :
    {V : Type 0} (regions : List RegionDesc) (key : Str × ℕ) (m : Map (Str × ℕ) V)
    → is_live regions key ≡ true
    → get key (retain_live regions m) ≡ get key m
unfolding retain_live get
get-retain_live regions key [] live = refl
get-retain_live regions key ((j, v) ∷ rest) live =
    ground (arith, get-retain_live regions key rest live, key_eq.beq_iff j key)

pub get-retain_gone :
    {V : Type 0} (regions : List RegionDesc) (key : Str × ℕ) (m : Map (Str × ℕ) V)
    → is_live regions key ≡ false
    → get key (retain_live regions m) ≡ none
unfolding retain_live get
get-retain_gone regions key [] gone = refl
get-retain_gone regions key ((j, v) ∷ rest) gone =
    ground (arith, get-retain_gone regions key rest gone, key_eq.beq_iff j key)

pub is_live-IsListed :
    (region : RegionDesc) (regions : List RegionDesc)
    → IsListed region regions
    → is_live regions (region_key region) ≡ true
unfolding is_live
is_live-IsListed region [] h = absurd h
is_live-IsListed region (r ∷ rs) (inl same) =
    rw same (rw (beq_refl ⦃e = key_eq⦄ (region_key region)) refl)
is_live-IsListed region (r ∷ rs) (inr later) = ground (arith, is_live-IsListed region rs later)

module _ (group : ℕ) (by_id : Map ℕ TupleDesc) where
  -- What the exchange leaves of a region's entry.
  abbrev entry_after : RegionDesc → List CachedRegion → List CachedRegion
  entry_after region entry = push_cached group region (get region.id by_id) (without group entry)

  ingest_regions_elsewhere :
      (regions : List RegionDesc) (key : Str × ℕ) (active : Map (Str × ℕ) (List CachedRegion))
      → KeyAbsent key regions
      → get key (ingest_regions group by_id regions active) ≡ get key active
  unfolding ingest_regions ingest_region
  ingest_regions_elsewhere [] key active h = refl
  ingest_regions_elsewhere (r ∷ rs) key active (ne, h) =
      ingest_regions_elsewhere rs key (ingest_region group by_id r active) h
      ∙ get-insert_ne (region_key r) key _ active ne

  ingest_regions_listed :
      (region : RegionDesc) (regions : List RegionDesc) (active : Map (Str × ℕ) (List CachedRegion))
      → KeysDistinct regions
      → IsListed region regions
      → get (region_key region) (ingest_regions group by_id regions active)
        ≡ some (entry_after region (or_default (get (region_key region) active)))
  unfolding ingest_regions ingest_region
  ingest_regions_listed region [] active distinct h = absurd h
  ingest_regions_listed region (r ∷ rs) active (absent, distinct) (inl same) =
      subst
        (λ q.
          get (region_key q) (ingest_regions group by_id rs (ingest_region group by_id r active))
          ≡ some (entry_after q (or_default (get (region_key q) active))))
        same
        (ingest_regions_elsewhere rs (region_key r) (ingest_region group by_id r active) absent
          ∙ get-insert_self (region_key r) _ active)
  ingest_regions_listed region (r ∷ rs) active (absent, distinct) (inr later) =
      ingest_regions_listed region rs (ingest_region group by_id r active) distinct later
      ∙ ap (λ o. some (entry_after region (or_default o)))
          (get-insert_ne (region_key r) (region_key region) _ active (apart rs absent later))
    where
      apart :
          (qs : List RegionDesc)
          → KeyAbsent (region_key r) qs
          → IsListed region qs
          → ¬ (region_key r ≡ region_key region)
      apart [] h listed e = absurd listed
      apart (q ∷ qs) (ne, h) (inl same) e = ne (ap region_key same ∙ sym e)
      apart (q ∷ qs) (ne, h) (inr later) e = apart qs h later e

-- The group's cached region is the pushed one, whatever the entry held of the group before.
pub find_group-without :
    (group : ℕ) (entry tail : List CachedRegion)
    → find_group (some group) (without group entry ++ tail) ≡ find_group (some group) tail
unfolding without find_group
find_group-without group [] tail = refl
find_group-without group (c ∷ cs) tail = ground (arith, find_group-without group cs tail)

find_group-push_cached :
    (group : ℕ) (region : RegionDesc) (tuple : TupleDesc) (entry : List CachedRegion)
    → find_group (some group) (push_cached group region (some tuple) (without group entry))
      ≡ some (cached_region group region tuple)
unfolding push_cached find_group
find_group-push_cached group region tuple entry =
    find_group-without group entry (cached_region group region tuple ∷ []) ∙ rw (==_refl group) refl

abbrev pub metadata_of : RegionDesc → RegionMetadata
metadata_of region = record {
  name = region.name;
  id = region.id;
  size = region.size;
  elem_size = region.elem_size;
  elem_align = region.elem_align;
  elem_type = region.elem_type;
}

-- The region as its tuple and its description give it, through a cell.
abbrev pub region_of : ℕ → ℕ → RegionDesc → TupleDesc → RemoteMemoryRegion
region_of slot group region tuple = record {
  connection = slot;
  remote_addr = tuple.remote_addr;
  size = tuple.size;
  rkey = tuple.rkey;
  group = group;
  elem_size = region.elem_size;
  elem_align = region.elem_align;
  elem_type = region.elem_type;
}

module _ (p : RemoteMemoryProvider) (md : RegionMetadata) (wanted : Option ℕ) (slots : Slots) where
  found :
      {cached : CachedRegion} (session : GroupSession)
      → find_group wanted (or_default (get (md.name, md.id) p.regions)) ≡ some cached
      → get cached.group p.sessions ≡ some session
      → get_remote_mr md wanted p slots ≡ (
        some (record {
          connection = session.connection;
          remote_addr = cached.remote_addr;
          size = cached.size;
          rkey = cached.rkey;
          group = cached.group;
          elem_size = cached.elem_size;
          elem_align = cached.elem_align;
          elem_type = cached.elem_type;
        }),
        slots,
      )
  unfolding get_remote_mr slot_for
  found session e has = rw (e, get_remote_mr) (rw has)

  unknown : get (md.name, md.id) p.regions ≡ none → get_remote_mr md wanted p slots ≡ (none, slots)
  unfolding get_remote_mr or_default find_group
  unknown e = rw (e, get_remote_mr)

module _ (group : ℕ) (regions : List RegionDesc) (descs : List TupleDesc)
    (p : RemoteMemoryProvider) where
  abbrev pub ingested : RemoteMemoryProvider
  ingested = (ingest group (metadata regions, tuples group descs) p).1

  pub ingest-ok :
      ingest group (metadata regions, tuples group descs) p
      ≡ (ok tt, refilled group regions descs p)
  unfolding ingest
  ingest-ok = rw (==_refl group) refl

  cached_after :
      (region : RegionDesc) (tuple : TupleDesc)
      → KeysDistinct regions
      → IsListed region regions
      → get region.id (tuples_by_id [] descs) ≡ some tuple
      → find_group
          (some group)
          (or_default (get (region_key region) (refilled group regions descs p).regions))
        ≡ some (cached_region group region tuple)
  unfolding or_default
  cached_after region tuple distinct listed has =
      let kept =
        get-retain_live regions (region_key region)
          (ingest_regions group (tuples_by_id [] descs) regions p.regions)
          (is_live-IsListed region regions listed) in
      let filled =
        ingest_regions_listed group (tuples_by_id [] descs) region regions p.regions distinct
          listed in
      ap (λ o. find_group (some group) (or_default o)) (kept ∙ filled)
      ∙ ap
          (λ t. find_group (some group) (
            push_cached group region t
              (without group (or_default (get (region_key region) p.regions)))))
          has
      ∙ find_group-push_cached group region tuple (or_default (get (region_key region) p.regions))

  looked_up :
      (md : RegionMetadata) (wanted : Option ℕ) (slots : Slots)
      → get_remote_mr md wanted ingested slots
        ≡ get_remote_mr md wanted (refilled group regions descs p) slots
  looked_up md wanted slots =
      ap (λ (r : IoResult (Unit {0}) × RemoteMemoryProvider). get_remote_mr md wanted r.1 slots)
        ingest-ok

  -- After an exchange whose catalog has no name and id twice, in a group that has a session, a
  -- lookup in the group of a region that the catalog lists and whose tuple came along gives that
  -- region, with the tuple's address, size and key, through the cell of the group's session.
  pub get_remote_mr-ingest :
      (region : RegionDesc) (tuple : TupleDesc) (session : GroupSession) (slots : Slots)
      → KeysDistinct regions
      → IsListed region regions
      → get region.id (tuples_by_id [] descs) ≡ some tuple
      → get group p.sessions ≡ some session
      → get_remote_mr (metadata_of region) (some group) ingested slots
        ≡ (some (region_of session.connection group region tuple), slots)
  get_remote_mr-ingest region tuple session slots distinct listed has open_session =
      looked_up (metadata_of region) (some group) slots
      ∙ found (refilled group regions descs p) (metadata_of region) (some group) slots session
          (cached_after region tuple distinct listed has) open_session

  gone_after :
      (key : Str × ℕ)
      → is_live regions key ≡ false
      → get key (refilled group regions descs p).regions ≡ none
  gone_after key gone = get-retain_gone regions key _ gone

  -- After an exchange, a region that the catalog does not list is found in no group.
  pub get_remote_mr-ingest_gone :
      (md : RegionMetadata) (wanted : Option ℕ) (slots : Slots)
      → is_live regions (md.name, md.id) ≡ false
      → get_remote_mr md wanted ingested slots ≡ (none, slots)
  get_remote_mr-ingest_gone md wanted slots gone =
      looked_up md wanted slots
      ∙ unknown (refilled group regions descs p) md wanted slots (gone_after (md.name, md.id) gone)
