-- ===== src/Remote/Caches.antt =====
-- What holds of every cached region, through an exchange and a look-up.
use rdmalib.Base.{
  ℕ, ◌≡◌, inl, inr, sym, ap, ◌∙◌, Option, none, some, Bool-cases, List, [], ◌∷◌, All, All-append,
  subst, ==_iff, ◌==◌,
}
use rdmalib.Base.Map as Map
use rdmalib.Base.Map.{Map, insert, Eq, nat_key, pair_key, list_key}
use rdmalib.Meta.Message.{Str, RegionDesc, TupleDesc}
use rdmalib.Remote.Client.{
  CachedRegion, cached_region, region_key, without, or_default, push_cached, ingest_region,
  ingest_regions, is_live, retain_live, find_group, key_eq,
}

abbrev pub AllCached : (CachedRegion → Type 0) → Map (Str × ℕ) (List CachedRegion) → Type 0
AllCached P [] = Unit
AllCached P ((key, entry) ∷ rest) = All P entry × AllCached P rest

pub All-imp :
    {P Q : CachedRegion → Type 0}
    → ((x : CachedRegion) → P x → Q x)
    → (xs : List CachedRegion) → All P xs
    → All Q xs
All-imp f [] h = tt
All-imp f (x ∷ xs) (p, h) = (f x p, All-imp f xs h)

pub AllCached-imp :
    {P Q : CachedRegion → Type 0}
    → ((x : CachedRegion) → P x → Q x)
    → (m : Map (Str × ℕ) (List CachedRegion)) → AllCached P m
    → AllCached Q m
AllCached-imp f [] h = tt
AllCached-imp f ((key, entry) ∷ rest) (p, h) = (All-imp f entry p, AllCached-imp f rest h)

-- A look-up in a group finds a region of that group.
pub group-find_group :
    (g : ℕ) (xs : List CachedRegion) {x : CachedRegion}
    → find_group (some g) xs ≡ some x
    → x.group ≡ g
unfolding find_group
group-find_group g [] e = cc
group-find_group g (y ∷ ys) {x = x} e = elim (Bool-cases (y.group == g)) [
  | inl t ↦
      let found : ◌≡◌ {A = Option CachedRegion} (some y) (some x) = rw t at e in
      let same : y ≡ x = cc in
      ap (λ (c : CachedRegion). c.group) (sym same) ∙ (==_iff y.group g).0 t
  | inr t ↦ group-find_group g ys (rw t at e)
]

module _ (P : CachedRegion → Type 0) where
  insert-AllCached :
      (key : Str × ℕ) (entry : List CachedRegion) (m : Map (Str × ℕ) (List CachedRegion))
      → All P entry
      → AllCached P m
      → AllCached P (insert key entry m)
  unfolding insert
  insert-AllCached key entry [] p h = (p, tt)
  insert-AllCached key entry ((k, old) ∷ rest) p (q, h) = elim (Bool-cases (key_eq.beq k key)) [
    | inl e ↦ rw (e, insert) (p, h)
    | inr e ↦ rw (e, insert) (q, insert-AllCached key entry rest p h)
  ]

  pub get-AllCached :
      (key : Str × ℕ) (m : Map (Str × ℕ) (List CachedRegion))
      → AllCached P m
      → All P (or_default (Map.get key m))
  unfolding Map.get or_default
  get-AllCached key [] h = tt
  get-AllCached key ((k, entry) ∷ rest) (p, h) = elim (Bool-cases (key_eq.beq k key)) [
    | inl e ↦ rw e p
    | inr e ↦ rw e (get-AllCached key rest h)
  ]

  without-All : (group : ℕ) (xs : List CachedRegion) → All P xs → All P (without group xs)
  unfolding without
  without-All group [] h = tt
  without-All group (x ∷ xs) (p, h) = elim (Bool-cases (x.group == group)) [
    | inl e ↦ rw e (without-All group xs h)
    | inr e ↦ rw e (p, without-All group xs h)
  ]

  pub retain_live-AllCached :
      (regions : List RegionDesc) (m : Map (Str × ℕ) (List CachedRegion))
      → AllCached P m
      → AllCached P (retain_live regions m)
  unfolding retain_live
  retain_live-AllCached regions [] h = tt
  retain_live-AllCached regions ((key, entry) ∷ rest) (p, h) =
      elim (Bool-cases (is_live regions key)) [
        | inl e ↦ rw e (p, retain_live-AllCached regions rest h)
        | inr e ↦ rw e (retain_live-AllCached regions rest h)
      ]

  -- A look-up finds a cached region, of the group that was asked for.
  pub find_group-All :
      (group : Option ℕ) (xs : List CachedRegion) {x : CachedRegion}
      → All P xs
      → find_group group xs ≡ some x
      → P x
  unfolding find_group
  find_group-All group [] h e = cc
  find_group-All none (y ∷ ys) {x = x} (p, h) e = let same : y ≡ x = cc in subst P same p
  find_group-All (some g) (y ∷ ys) {x = x} (p, h) e = elim (Bool-cases (y.group == g)) [
    | inl t ↦
        let found : ◌≡◌ {A = Option CachedRegion} (some y) (some x) = rw t at e in
        let same : y ≡ x = cc in subst P same p
    | inr t ↦ find_group-All (some g) ys h (rw t at e)
  ]

  -- The regions of an exchange of the group.
  module _ (group : ℕ)
      (new : (region : RegionDesc) (tuple : TupleDesc) → P (cached_region group region tuple)) where
    push_cached-All :
        (region : RegionDesc) (o : Option TupleDesc) (xs : List CachedRegion)
        → All P xs
        → All P (push_cached group region o xs)
    unfolding push_cached
    push_cached-All region none xs h = h
    push_cached-All region (some tuple) xs h =
        All-append P xs (cached_region group region tuple ∷ []) h (new region tuple, tt)

    pub ingest_regions-AllCached :
        (by_id : Map ℕ TupleDesc) (regions : List RegionDesc)
        (m : Map (Str × ℕ) (List CachedRegion))
        → AllCached P m
        → AllCached P (ingest_regions group by_id regions m)
    unfolding ingest_regions ingest_region
    ingest_regions-AllCached by_id [] m h = h
    ingest_regions-AllCached by_id (region ∷ regions) m h =
        ingest_regions-AllCached by_id regions (ingest_region group by_id region m) (
          insert-AllCached (region_key region) _ m
            (push_cached-All region (Map.get region.id by_id) _
              (without-All group _ (get-AllCached (region_key region) m h)))
            h)
