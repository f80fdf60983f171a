-- ===== src/Provider/Catalog.antt =====
-- What a session is served from the provider's shared state.
use rdmalib.Base.{ℕ, ◌≡◌, refl, sym, ap, ap₂, ◌∙◌, List, [], ◌∷◌, ◌++◌, append-nil, append_assoc}
use rdmalib.Base.Map.{get, nat_key, pair_key, Absent, Distinct}
use rdmalib.Meta.Message.{RegionDesc, TupleDesc, metadata, tuples}
use rdmalib.Rdma.Calls.{Library}
use rdmalib.Provider.State.{
  RegionInfo, Sharing, tuple_of, region_desc, push_tuple, describe, catalog_and_tuples,
}
use rdmalib.Provider.Sharing.{
  IsShared, served, served_one, after, tuple_of_catalog, tuple_of_groups, tuple_of_elsewhere,
  tuple_of_pushes, tuple_of-IsShared,
}

-- What the exchange of `group` makes of the catalog's entries that are still to be described.
module _ (lib : Library) (group : ℕ) where
  abbrev described :
      List (ℕ × RegionInfo) → List RegionDesc → List TupleDesc → Sharing lib → Sharing lib
  described rest regions descs s = (describe lib group rest regions descs s).1

  abbrev pub descs_of : List (ℕ × RegionInfo) → List RegionDesc
  descs_of [] = []
  descs_of ((id, info) ∷ rest) = region_desc lib id info ∷ descs_of rest

  describe_elsewhere :
      (id : ℕ) (rest : List (ℕ × RegionInfo)) (regions : List RegionDesc) (descs : List TupleDesc)
      (s : Sharing lib)
      → Absent id rest
      → get (id, group) (described rest regions descs s).shared.tuples
        ≡ get (id, group) s.shared.tuples
  unfolding describe
  describe_elsewhere id [] regions descs s a = refl
  describe_elsewhere id ((j, info) ∷ rest) regions descs s a =
      describe_elsewhere id rest _ _ (after lib j group s) a.1
      ∙ tuple_of_elsewhere lib j group s (id, group) (λ e. a.0 (ap (λ (k : ℕ × ℕ). k.0) e))

  describe_lem :
      (rest : List (ℕ × RegionInfo)) (regions : List RegionDesc) (descs : List TupleDesc)
      (s : Sharing lib)
      → Distinct rest
      → (describe lib group rest regions descs s).0 ≡ (
        regions ++ descs_of rest,
        descs ++ served group (described rest regions descs s).shared.tuples rest,
      )
  unfolding describe
  describe_lem [] regions descs s d =
      ap₂ (λ r t. (r, t)) (sym (append-nil regions)) (sym (append-nil descs))
  describe_lem ((id, info) ∷ rest) regions descs s d =
      let next : Sharing lib = after lib id group s in
      let regions' : List RegionDesc = regions ++ (region_desc lib id info ∷ []) in
      let descs' : List TupleDesc = push_tuple lib id descs (tuple_of lib id group s).0 in
      describe_lem rest regions' descs' next d.1
      ∙ ap₂ (λ r t. (r, t)) (append_assoc regions (region_desc lib id info ∷ []) (descs_of rest))
          (ap (λ t. t ++ served group (described rest regions' descs' next).shared.tuples rest)
              (tuple_of_pushes lib id group s descs
                ∙ ap (λ o. descs ++ served_one id o)
                    (sym (describe_elsewhere id rest regions' descs' next d.0)))
            ∙ append_assoc descs _ _)

  pub catalog_and_tuples_lem :
      (s : Sharing lib)
      → Distinct s.shared.catalog
      → (catalog_and_tuples lib group s).0 ≡ (
        metadata (descs_of s.shared.catalog),
        tuples group
            (served group (catalog_and_tuples lib group s).1.shared.tuples s.shared.catalog),
      )
  unfolding catalog_and_tuples
  catalog_and_tuples_lem s d =
      ap (λ (p : List RegionDesc × List TupleDesc). (metadata p.0, tuples group p.1))
        (describe_lem s.shared.catalog [] [] s d)

  describe-IsShared :
      (rest : List (ℕ × RegionInfo)) (regions : List RegionDesc) (descs : List TupleDesc)
      (s : Sharing lib)
      → IsShared s.shared
      → IsShared (described rest regions descs s).shared
  unfolding describe
  describe-IsShared [] regions descs s h = h
  describe-IsShared ((id, info) ∷ rest) regions descs s h =
      describe-IsShared rest _ _ (after lib id group s) (tuple_of-IsShared lib id group s h)

  -- If every tuple is of a registered region and a known group, reaches the region's memory and
  -- belongs to the group's domain, then this still holds after an exchange is served.
  pub catalog_and_tuples-IsShared :
      (s : Sharing lib) → IsShared s.shared → IsShared (catalog_and_tuples lib group s).1.shared
  unfolding catalog_and_tuples
  catalog_and_tuples-IsShared s h = describe-IsShared s.shared.catalog [] [] s h

  describe_groups :
      (rest : List (ℕ × RegionInfo)) (regions : List RegionDesc) (descs : List TupleDesc)
      (s : Sharing lib)
      → (described rest regions descs s).shared.groups ≡ s.shared.groups
  unfolding describe
  describe_groups [] regions descs s = refl
  describe_groups ((id, info) ∷ rest) regions descs s =
      describe_groups rest _ _ (after lib id group s) ∙ tuple_of_groups lib id group s

  -- Serving an exchange leaves the groups.
  pub catalog_and_tuples_groups :
      (s : Sharing lib) → (catalog_and_tuples lib group s).1.shared.groups ≡ s.shared.groups
  unfolding catalog_and_tuples
  catalog_and_tuples_groups s = describe_groups s.shared.catalog [] [] s

  describe_catalog :
      (rest : List (ℕ × RegionInfo)) (regions : List RegionDesc) (descs : List TupleDesc)
      (s : Sharing lib)
      → (described rest regions descs s).shared.catalog ≡ s.shared.catalog
  unfolding describe
  describe_catalog [] regions descs s = refl
  describe_catalog ((id, info) ∷ rest) regions descs s =
      describe_catalog rest _ _ (after lib id group s) ∙ tuple_of_catalog lib id group s

  -- Serving an exchange leaves the catalog.
  pub catalog_and_tuples_catalog :
      (s : Sharing lib) → (catalog_and_tuples lib group s).1.shared.catalog ≡ s.shared.catalog
  unfolding catalog_and_tuples
  catalog_and_tuples_catalog s = describe_catalog s.shared.catalog [] [] s
