-- ===== src/Remote/View.antt =====
-- The reader's caches as a function: what is known of a region, by its name and id, in a group. The
-- specification of an exchange is a change to that function, and `ingest` meets it.
use rdmalib.Base.{
  ℕ, ◌⊎◌, ◌≡◌, refl, sym, ap, ◌∙◌, fun_ext, inl, inr, Option, none, some, Bool, true, false,
  Bool-cases, List, [], ◌∷◌, append-nil, ◌==◌, if◌then◌else◌, arith,
}
use rdmalib.Base.Io.{IoResult}
use rdmalib.Base.Map.{Map, get, insert, nat_key, pair_key, list_key, get-insert}
use rdmalib.Meta.Message.{Str, RegionDesc, TupleDesc, metadata, tuples}
use rdmalib.Remote.Client.{
  CachedRegion, RemoteMemoryProvider, tuples_by_id, without, or_default, cached_region, push_cached,
  region_key, key_eq, ingest_region, ingest_regions, is_live, refilled, ingest, find_group,
}
use rdmalib.Remote.Ingest.{get-retain_live, get-retain_gone, find_group-without, ingest-ok}

abbrev pub View : Type 0
View = Str × ℕ → ℕ → Option CachedRegion

-- What `get_remote_mr` finds, before it adds the connection's cell.
abbrev pub view : RemoteMemoryProvider → View
view p key g = find_group (some g) (or_default (get key p.regions))

-- The description that a catalog gives under a name and id; the last one counts.
abbrev pub or_else : {A : Type 0} → Option A → Option A → Option A
or_else (some a) o = some a
or_else none o = o

abbrev pub described : List RegionDesc → Str × ℕ → Option RegionDesc
described [] key = none
described (r ∷ rs) key =
    or_else (described rs key) (if key_eq.beq (r.name, r.id) key then some r else none)

-- The tuple that is delivered for an id; the last one counts.
abbrev pub last_tuple : List TupleDesc → ℕ → Option TupleDesc
last_tuple [] id = none
last_tuple (t ∷ ts) id = or_else (last_tuple ts id) (if t.region_id == id then some t else none)

last_tuple-by_id :
    (map : Map ℕ TupleDesc) (descs : List TupleDesc) (id : ℕ)
    → get id (tuples_by_id map descs) ≡ or_else (last_tuple descs id) (get id map)
unfolding tuples_by_id
last_tuple-by_id map [] id = refl
last_tuple-by_id map (t ∷ ts) id =
    last_tuple-by_id (insert t.region_id t map) ts id
    ∙ ap (or_else (last_tuple ts id)) (get-insert t.region_id id t map)
    ∙ kept (last_tuple ts id) (t.region_id == id)
  where
    kept :
        (later : Option TupleDesc) (same : Bool)
        → or_else later (if same then some t else get id map)
          ≡ or_else (or_else later (if same then some t else none)) (get id map)
    kept (some u) same = refl
    kept none true = refl
    kept none false = refl

pub last_tuple_lem :
    (descs : List TupleDesc) (id : ℕ) → get id (tuples_by_id [] descs) ≡ last_tuple descs id
unfolding get
last_tuple_lem descs id = last_tuple-by_id [] descs id ∙ nothing_before (last_tuple descs id)
  where
    nothing_before : (o : Option TupleDesc) → or_else o (get id []) ≡ o
    nothing_before (some t) = refl
    nothing_before none = refl

module _ (group : ℕ) where
  -- A region of the group: the description with the tuple, if one came along.
  abbrev pub cached_of : RegionDesc → Option TupleDesc → Option CachedRegion
  cached_of region none = none
  cached_of region (some tuple) = some (record {
    remote_addr = tuple.remote_addr;
    size = tuple.size;
    rkey = tuple.rkey;
    group = group;
    elem_size = region.elem_size;
    elem_align = region.elem_align;
    elem_type = region.elem_type;
  })

  -- The specification: what is not in the catalog is forgotten; in the group of the exchange, what
  -- the catalog describes is what was delivered; in the other groups it stays.
  abbrev pub exchanged_at :
      (ℕ → Option TupleDesc) → Option RegionDesc → Option CachedRegion → ℕ → Option CachedRegion
  exchanged_at delivered none old g = none
  exchanged_at delivered (some r) old g = if group == g then cached_of r (delivered r.id) else old

  abbrev pub after_exchange : List RegionDesc → List TupleDesc → View → View
  after_exchange regions descs f key g =
      exchanged_at (last_tuple descs) (described regions key) (f key g) g

  find_own :
      (region : RegionDesc) (tuple : Option TupleDesc) (entry : List CachedRegion)
      → find_group (some group) (push_cached group region tuple (without group entry))
        ≡ cached_of region tuple
  unfolding push_cached find_group
  find_own region none entry =
      ap (find_group (some group)) (sym (append-nil (without group entry)))
      ∙ find_group-without group entry []
  find_own region (some tuple) entry =
      find_group-without group entry (cached_region group region tuple ∷ []) ∙ ground arith

  find_other :
      (g : ℕ) (region : RegionDesc) (tuple : Option TupleDesc) (entry : List CachedRegion)
      → (group == g) ≡ false
      → find_group (some g) (push_cached group region tuple (without group entry))
        ≡ find_group (some g) entry
  unfolding push_cached find_group without
  find_other g region none [] apart = refl
  find_other g region (some tuple) [] apart = ground arith
  find_other g region none (c ∷ cs) apart = ground (arith, find_other g region none cs apart)
  find_other g region (some tuple) (c ∷ cs) apart =
      ground (arith, find_other g region (some tuple) cs apart)

  module _ (by_id : Map ℕ TupleDesc) (key : Str × ℕ) (g : ℕ) where
    abbrev seen : Map (Str × ℕ) (List CachedRegion) → Option CachedRegion
    seen active = find_group (some g) (or_default (get key active))

    -- What the loop does to a view, before the regions that are gone are dropped.
    abbrev refreshed_at : Option RegionDesc → Option CachedRegion → Option CachedRegion
    refreshed_at none old = old
    refreshed_at (some r) old = exchanged_at (λ id. get id by_id) (some r) old g

    refreshed_twice :
        (o₁ o₂ : Option RegionDesc) (old : Option CachedRegion)
        → refreshed_at o₁ (refreshed_at o₂ old) ≡ refreshed_at (or_else o₁ o₂) old
    refreshed_twice none o₂ old = refl
    refreshed_twice (some r) none old = refl
    refreshed_twice (some r) (some q) old = ground arith

    refilled_entry :
        (r : RegionDesc) (entry : List CachedRegion)
        → find_group (some g) (push_cached group r (get r.id by_id) (without group entry))
          ≡ refreshed_at (some r) (find_group (some g) entry)
    refilled_entry r entry = elim (Bool-cases (group == g)) [
      | inl same ↦
          let equal : group ≡ g = ground arith in
          rw same (rw (← equal) (find_own r (get r.id by_id) entry))
      | inr apart ↦ rw apart (find_other g r (get r.id by_id) entry apart)
    ]

    seen-ingest_region :
        (r : RegionDesc) (active : Map (Str × ℕ) (List CachedRegion))
        → seen (ingest_region group by_id r active)
          ≡ refreshed_at (if key_eq.beq (region_key r) key then some r else none) (seen active)
    unfolding ingest_region or_default
    seen-ingest_region r active = elim (Bool-cases (key_eq.beq (region_key r) key)) [
      | inl same ↦ rw (get-insert (region_key r) key _ active) (
          rw same (
            refilled_entry r (or_default (get (region_key r) active))
            ∙ ap (λ k. refreshed_at (some r) (seen_of k active)) ((key_eq.beq_iff _ key).0 same)))
      | inr apart ↦ rw (get-insert (region_key r) key _ active) (rw apart refl)
    ]
      where
        seen_of : Str × ℕ → Map (Str × ℕ) (List CachedRegion) → Option CachedRegion
        seen_of k active = find_group (some g) (or_default (get k active))

    seen-ingest_regions :
        (rs : List RegionDesc) (active : Map (Str × ℕ) (List CachedRegion))
        → seen (ingest_regions group by_id rs active)
          ≡ refreshed_at (described rs key) (seen active)
    unfolding ingest_regions
    seen-ingest_regions [] active = refl
    seen-ingest_regions (r ∷ rs) active =
        seen-ingest_regions rs (ingest_region group by_id r active)
        ∙ ap (refreshed_at (described rs key)) (seen-ingest_region r active)
        ∙ refreshed_twice (described rs key) _ (seen active)

  -- A region is live exactly when the catalog describes it.
  is_live-described :
      (rs : List RegionDesc) (key : Str × ℕ)
      → ((described rs key ≡ none) × (is_live rs key ≡ false))
        ⊎ ((r : RegionDesc) × (described rs key ≡ some r) × (is_live rs key ≡ true))
  unfolding is_live
  is_live-described [] key = inl (refl, refl)
  is_live-described (r ∷ rs) key = elim (is_live-described rs key) [
    | inr (q, found, live) ↦ inr (q, rw found refl, ground arith)
    | inl (unknown, gone) ↦ elim (Bool-cases (key_eq.beq (region_key r) key)) [
      | inl same ↦ inr (r, rw (unknown, same) refl, ground arith)
      | inr apart ↦ inl (rw (unknown, apart) refl, ground arith)
    ]
  ]

module _ (group : ℕ) (regions : List RegionDesc) (descs : List TupleDesc)
    (p : RemoteMemoryProvider) where
  abbrev by_id : ℕ → Option TupleDesc
  by_id id = get id (tuples_by_id [] descs)

  view-refilled :
      (key : Str × ℕ) (g : ℕ)
      → view (refilled group regions descs p) key g
        ≡ exchanged_at group by_id (described regions key) (view p key g) g
  unfolding or_default find_group
  view-refilled key g = elim (is_live-described group regions key) [
    | inl (unknown, gone) ↦
        ap (λ o. find_group (some g) (or_default o)) (get-retain_gone regions key _ gone)
        ∙ ap (λ o. exchanged_at group by_id o (view p key g) g) (sym unknown)
    | inr (r, found, live) ↦
        ap (λ o. find_group (some g) (or_default o)) (get-retain_live regions key _ live)
        ∙ seen-ingest_regions group (tuples_by_id [] descs) key g regions p.regions
        ∙ ap (λ o. refreshed_at group (tuples_by_id [] descs) key g o (view p key g)) found
        ∙ ap (λ o. exchanged_at group by_id o (view p key g) g) (sym found)
  ]

  -- As a function from names, ids and groups to regions, the caches after an exchange are those
  -- before it with the exchange's specification applied: what the catalog does not list is
  -- forgotten, what it lists is, in the exchange's group, what was delivered (the last description
  -- of a name and id, the last tuple of an id), and in the other groups what it was.
  pub view-ingest :
      view (ingest group (metadata regions, tuples group descs) p).1
      ≡ after_exchange group regions descs (view p)
  view-ingest =
      ap (λ (r : IoResult (Unit {0}) × RemoteMemoryProvider). view r.1)
        (ingest-ok group regions descs p)
      ∙ fun_ext (λ key. fun_ext (λ g.
        view-refilled key g
        ∙ ap (λ h. exchanged_at group h (described regions key) (view p key g) g)
            (fun_ext (last_tuple_lem descs))))
