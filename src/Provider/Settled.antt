-- ===== src/Provider/Settled.antt =====
-- What a thread's locals say about the shared state, and that what the other threads do leaves it true.
use rdmalib.Base.{ℕ, ◌≡◌, inl, inr, refl, sym, ap, ◌∙◌, none, some, Option-cases}
use rdmalib.Base.Io.{IoResult, ok, err}
use rdmalib.Base.Map.{Map, get, nat_key, pair_key}
use rdmalib.Rdma.Calls.{Library, Host}
use rdmalib.Rdma.Domain.{MemoryRegion, ProtectionDomain, register_addr, tuple}
use rdmalib.Rdma.Registering.{register_addr-ok}
use rdmalib.Provider.State.{RegionInfo, GroupEntry, Shared, Sharing, insert_tuple}
use rdmalib.Provider.Sharing.{Serves, IsShared, insert-IsShared}
use rdmalib.Provider.Evolving.{SameDomain}
use rdmalib.Provider.Phases.{
  Phase, at_tuples, at_groups, at_catalog, at_register, at_insert, finished, Answered, from_tuples,
  from_groups, from_catalog, from_register, step,
}

-- The group has readers, and this domain.
pub record HasDomain (shared : Shared) (group : ℕ) (pd : ProtectionDomain) : Type 0 where
  pub entry : GroupEntry
  pub joined : get group shared.groups ≡ some entry
  pub same : entry.pd ≡ pd

-- An answer is the tuple of a registration of the region in the group's domain.
abbrev pub IsServed : Shared → ℕ → ℕ → Answered → Type 0
IsServed shared id group (ok (some t)) =
    (mr : MemoryRegion) × (tuple mr ≡ t) × Serves shared id group mr
IsServed shared id group _ = Unit {0}

-- What a thread in the look-up of a tuple knows.
abbrev pub IsSettled : Shared → ℕ → ℕ → Phase → Type 0
IsSettled shared id group at_tuples = Unit {0}
IsSettled shared id group at_groups = Unit {0}
IsSettled shared id group (at_catalog pd) = HasDomain shared group pd
IsSettled shared id group (at_register pd info) =
    HasDomain shared group pd × (get id shared.catalog ≡ some info)
IsSettled shared id group (at_insert mr) = Serves shared id group mr
IsSettled shared id group (finished r) = IsServed shared id group r

-- From `a` to `b`, regions stay, and groups with their domains; tuples may be replaced.
pub record Grows (a b : Shared) : Type 0 where
  pub catalog :
      (id : ℕ) (info : RegionInfo) → get id a.catalog ≡ some info → get id b.catalog ≡ some info
  pub groups :
      (group : ℕ) (entry : GroupEntry)
      → get group a.groups ≡ some entry
      → SameDomain b.groups group entry

module _ {a b : Shared} (f : Grows a b) where
  pub Serves-Grows :
      {id group : ℕ} {mr : MemoryRegion} → Serves a id group mr → Serves b id group mr
  Serves-Grows {id = id} {group = group} s =
      let kept = f.groups group s.entry s.joined in
      record {
        info = s.info;
        entry = kept.entry;
        region = f.catalog id s.info s.region;
        joined = kept.joined;
        addr = s.addr;
        size = s.size;
        pd = s.pd ∙ ap (λ (d : ProtectionDomain). d.pd) (sym kept.pd);
      }

  HasDomain-Grows :
      {group : ℕ} {pd : ProtectionDomain} → HasDomain a group pd → HasDomain b group pd
  HasDomain-Grows {group = group} d =
      let kept = f.groups group d.entry d.joined in
      record { entry = kept.entry; joined = kept.joined; same = kept.pd ∙ d.same }

  IsServed-Grows : (id group : ℕ) (r : Answered) → IsServed a id group r → IsServed b id group r
  IsServed-Grows id group (ok (some t)) (mr, e, s) = (mr, e, Serves-Grows s)
  IsServed-Grows id group (ok none) h = tt
  IsServed-Grows id group (err e) h = tt

  pub IsSettled-Grows : (id group : ℕ) (p : Phase) → IsSettled a id group p → IsSettled b id group p
  IsSettled-Grows id group at_tuples h = tt
  IsSettled-Grows id group at_groups h = tt
  IsSettled-Grows id group (at_catalog pd) h = HasDomain-Grows h
  IsSettled-Grows id group (at_register pd info) (d, e) = (HasDomain-Grows d, f.catalog id info e)
  IsSettled-Grows id group (at_insert mr) h = Serves-Grows h
  IsSettled-Grows id group (finished r) h = IsServed-Grows id group r h

module _ (shared : Shared) (id group : ℕ) where
  from_tuples-IsSettled :
      IsShared shared → IsSettled shared id group (from_tuples (get (id, group) shared.tuples))
  unfolding from_tuples
  from_tuples-IsSettled h = elim (Option-cases (get (id, group) shared.tuples)) [
    | inl e ↦ rw (e, from_tuples) tt
    | inr (mr, e) ↦ rw (e, from_tuples) (mr, refl, h.at id group mr e)
  ]

  from_groups-IsSettled : IsSettled shared id group (from_groups (get group shared.groups))
  unfolding from_groups
  from_groups-IsSettled = elim (Option-cases (get group shared.groups)) [
    | inl e ↦ rw (e, from_groups) tt
    | inr (entry, e) ↦ rw (e, from_groups) (record { entry = entry; joined = e; same = refl })
  ]

  from_catalog-IsSettled :
      (pd : ProtectionDomain)
      → HasDomain shared group pd
      → IsSettled shared id group (from_catalog pd (get id shared.catalog))
  unfolding from_catalog
  from_catalog-IsSettled pd h = elim (Option-cases (get id shared.catalog)) [
    | inl e ↦ rw (e, from_catalog) tt
    | inr (info, e) ↦ rw (e, from_catalog) (h, e)
  ]

  from_register-IsSettled :
      (lib : Library) (pd : ProtectionDomain) (info : RegionInfo) (host : Host lib.World)
      → HasDomain shared group pd
      → get id shared.catalog ≡ some info
      → IsSettled shared id group
          (from_register (register_addr lib pd info.remote_addr info.size host).0)
  from_register-IsSettled lib pd info host d region =
      registered (register_addr lib pd info.remote_addr info.size host) refl
    where
      registered :
          (p : IoResult MemoryRegion × Host lib.World)
          → register_addr lib pd info.remote_addr info.size host ≡ p
          → IsSettled shared id group (from_register p.0)
      registered (err x, h) e = unfold from_register in tt
      registered (ok mr, h) e =
          let made = register_addr-ok lib pd info.remote_addr info.size host e in
          unfold from_register in
          record {
            info = info;
            entry = d.entry;
            region = region;
            joined = d.joined;
            addr = made.addr;
            size = made.size;
            pd = made.pd ∙ ap (λ (x : ProtectionDomain). x.pd) (sym d.same);
          }

-- A change of the tuples alone.
tuples_only : (a : Shared) (ts : Map (ℕ × ℕ) MemoryRegion) → Grows a (record a { tuples = ts })
tuples_only a ts = record {
  catalog = λ id info e. e;
  groups = λ group entry e. record { entry = entry; joined = e; pd = refl };
}

-- What a step of a look-up leaves: the catalog and the groups as they are, and its tuple, if it
-- inserts one, of the right region and domain.
pub record Looked (id group : ℕ) (a b : Shared) (p : Phase) : Type 0 where
  pub catalog : b.catalog ≡ a.catalog
  pub groups : b.groups ≡ a.groups
  pub shared : IsShared b
  pub settled : IsSettled b id group p

module _ (lib : Library) (id group : ℕ) (s : Sharing lib) where
  same-Looked :
      (p : Phase)
      → IsShared s.shared
      → IsSettled s.shared id group p
      → Looked id group s.shared s.shared p
  same-Looked p h settled = record { catalog = refl; groups = refl; shared = h; settled = settled }

  pub step-Looked :
      (p : Phase)
      → IsShared s.shared
      → IsSettled s.shared id group p
      → Looked id group s.shared (step lib id group p s).1.shared (step lib id group p s).0
  unfolding step insert_tuple
  step-Looked at_tuples h k = same-Looked _ h (from_tuples-IsSettled s.shared id group h)
  step-Looked at_groups h k = same-Looked _ h (from_groups-IsSettled s.shared id group)
  step-Looked (at_catalog pd) h k = same-Looked _ h (from_catalog-IsSettled s.shared id group pd k)
  step-Looked (at_register pd info) h (d, region) =
      same-Looked _ h (from_register-IsSettled s.shared id group lib pd info s.host d region)
  step-Looked (at_insert mr) h k = record {
    catalog = refl;
    groups = refl;
    shared = insert-IsShared s.shared id group mr k h;
    settled = (mr, refl, Serves-Grows (tuples_only s.shared _) k);
  }
  step-Looked (finished r) h k = same-Looked _ h k
