-- ===== src/Exchange/Offer.antt =====
-- The messages of an exchange as maps: what they say under each name and id.
use rdmalib.Base.{
  subst, ℕ, ◌≡◌, refl, ap, ◌∙◌, inl, inr, Option, none, some, Option-cases, [], ◌∷◌, if◌then◌else◌,
  ==_iff, arith,
}
use rdmalib.Base.Map.{
  Map, Eq, get, nat_key, pair_key, list_key, get-insert_self, get-insert_ne, key-cases, Absent,
  Distinct,
}
use rdmalib.Meta.Message.{Str, RegionDesc, TupleDesc}
use rdmalib.Rdma.Calls.{Library}
use rdmalib.Rdma.Domain.{MemoryRegion}
use rdmalib.Provider.State.{RegionInfo, region_desc}
use rdmalib.Provider.Sharing.{served}
use rdmalib.Provider.Catalog.{descs_of}
use rdmalib.Remote.Client.{tuples_by_id, key_eq}
use rdmalib.Remote.View.{described}

abbrev pub str_eq : Eq Str
str_eq = list_key

-- The description of a registered region, under its own name.
abbrev pub named_info : Str → Option RegionInfo → Option RegionInfo
named_info name none = none
named_info name (some info) = if str_eq.beq info.name name then some info else none

abbrev pub desc_of : (lib : Library) → ℕ → Option RegionInfo → Option RegionDesc
desc_of lib id none = none
desc_of lib id (some info) = some (region_desc lib id info)

abbrev pub tuple_desc : ℕ → Option MemoryRegion → Option TupleDesc
tuple_desc id none = none
tuple_desc id (some mr) =
    some (record { region_id = id; remote_addr = mr.addr; size = mr.size; rkey = mr.rkey })

module _ (lib : Library) (group : ℕ) where
  described-Absent :
      (name : Str) (id : ℕ) (catalog : Map ℕ RegionInfo)
      → Absent id catalog
      → described (descs_of lib group catalog) (name, id) ≡ none
  unfolding region_desc
  described-Absent name id [] a = refl
  described-Absent name id ((j, info) ∷ rest) (ne, a) =
      ground (arith, described-Absent name id rest a, key_eq.beq_iff (info.name, j) (name, id))

  -- In a catalog with no id twice, what is described under a name and id is the registered region.
  pub described-descs_of :
      (name : Str) (id : ℕ) (catalog : Map ℕ RegionInfo)
      → Distinct catalog
      → described (descs_of lib group catalog) (name, id)
        ≡ desc_of lib id (named_info name (get id catalog))
  unfolding get region_desc
  described-descs_of name id [] d = refl
  described-descs_of name id ((j, info) ∷ rest) (absent, d) = ground (
    arith,
    described-descs_of name id rest d,
    described-Absent name j rest absent,
    key_eq.beq_iff (info.name, j) (name, id),
    str_eq.beq_iff info.name name,
  )

module _ (group : ℕ) (ts : Map (ℕ × ℕ) MemoryRegion) where
  -- The tuples of the listed regions are the held ones; those of other regions are left.
  tuples_by_id-served-Absent :
      (id : ℕ) (catalog : Map ℕ RegionInfo) (map : Map ℕ TupleDesc)
      → Absent id catalog
      → get id (tuples_by_id map (served group ts catalog)) ≡ get id map
  unfolding tuples_by_id
  tuples_by_id-served-Absent id [] map a = refl
  tuples_by_id-served-Absent id ((j, info) ∷ rest) map (ne, a) =
      elim (Option-cases (get (j, group) ts)) [
        | inl none_held ↦ rw none_held (tuples_by_id-served-Absent id rest map a)
        | inr (mr, held) ↦
            rw held (tuples_by_id-served-Absent id rest _ a ∙ get-insert_ne j id _ map ne)
      ]

  pub tuples_by_id-served :
      (id : ℕ) (catalog : Map ℕ RegionInfo) (map : Map ℕ TupleDesc) {info : RegionInfo}
      → Distinct catalog
      → get id map ≡ none
      → get id catalog ≡ some info
      → get id (tuples_by_id map (served group ts catalog)) ≡ tuple_desc id (get (id, group) ts)
  unfolding tuples_by_id get
  tuples_by_id-served id [] map d fresh listed = cc
  tuples_by_id-served id ((j, info) ∷ rest) map {info = found} (absent, d) fresh listed =
      elim (key-cases j id) [
        | inl same ↦
            subst
              (λ k.
                get k (tuples_by_id map (served group ts ((j, info) ∷ rest)))
                ≡ tuple_desc k (get (k, group) ts))
              same (own j info rest map absent (ap (λ k. get k map) same ∙ fresh))
        | inr apart ↦
            let later : get id rest ≡ some found = ground (arith, ==_iff j id) in
            elim (Option-cases (get (j, group) ts)) [
              | inl none_held ↦ rw none_held (tuples_by_id-served id rest map d fresh later)
              | inr (mr, held) ↦
                  rw held
                    (tuples_by_id-served id rest _ d (get-insert_ne j id _ map apart ∙ fresh) later)
            ]
      ]
    where
      own :
          (j : ℕ) (info : RegionInfo) (rest : Map ℕ RegionInfo) (map : Map ℕ TupleDesc)
          → Absent j rest
          → get j map ≡ none
          → get j (tuples_by_id map (served group ts ((j, info) ∷ rest)))
            ≡ tuple_desc j (get (j, group) ts)
      own j info rest map absent fresh = elim (Option-cases (get (j, group) ts)) [
        | inl none_held ↦ rw none_held (tuples_by_id-served-Absent j rest map absent ∙ fresh)
        | inr (mr, held) ↦
            rw held (tuples_by_id-served-Absent j rest _ absent ∙ get-insert_self j _ map)
      ]
