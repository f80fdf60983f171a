-- ===== src/Provider/Sound.antt =====
-- What holds of a provider at any time, and what a change leaves in place.
use rdmalib.Base.{
  ℕ, zero, suc, ◌+◌, ◌*◌, ◌^◌, ◌<◌, ◌≡◌, ◌⊎◌, inl, inr, refl, sym, ap, ◌∙◌, Option, some, arith,
}
use rdmalib.Base.Map.{
  Map, get, insert, nat_key, pair_key, get-insert_self, get-insert_ne, key-cases,
}
use rdmalib.Meta.Message.{Str}
use rdmalib.Rdma.Domain.{MemoryRegion}
use rdmalib.Provider.State.{RegionInfo, Shared, Vector, Provider, new, region_info, register_typed}
use rdmalib.Provider.Sharing.{IsShared}
use rdmalib.Provider.Registry.{
  IsProvider, new-IsProvider, registered_shared, register_typed-IsProvider,
}
use rdmalib.Provider.Joining.{IsGrouped}
use rdmalib.Provider.Evolving.{Evolves}

-- The region's address and size are those of a buffer that the provider owns.
pub record Owned (owners : Map ℕ Vector) (id : ℕ) (info : RegionInfo) : Type 0 where
  pub buffer : Vector
  pub owner : get id owners ≡ some buffer
  pub addr : info.remote_addr ≡ buffer.addr
  pub size : info.size ≡ buffer.len * buffer.elem.size

pub record IsSound (p : Provider) : Type 0 where
  pub provider : IsProvider p
  pub grouped : IsGrouped p.shared.groups
  pub owned :
      (id : ℕ) (info : RegionInfo) → get id p.shared.catalog ≡ some info → Owned p.owners id info

-- From `p` to `q`, no region, buffer or tuple is taken back or replaced.
pub record Keeps (p q : Provider) : Type 0 where
  pub catalog :
      (id : ℕ) (info : RegionInfo)
      → get id p.shared.catalog ≡ some info
      → get id q.shared.catalog ≡ some info
  pub owners :
      (id : ℕ) (info : RegionInfo)
      → get id p.shared.catalog ≡ some info
      → get id q.owners ≡ get id p.owners
  pub tuples :
      (key : ℕ × ℕ) (mr : MemoryRegion)
      → get key p.shared.tuples ≡ some mr
      → get key q.shared.tuples ≡ some mr

pub Keeps-refl : (p : Provider) → Keeps p p
Keeps-refl p = record {
  catalog = λ id info e. e;
  owners = λ id info e. refl;
  tuples = λ key mr e. e;
}

pub Keeps-trans : {p q r : Provider} → Keeps p q → Keeps q r → Keeps p r
Keeps-trans f g = record {
  catalog = λ id info e. g.catalog id info (f.catalog id info e);
  owners = λ id info e. g.owners id info (f.catalog id info e) ∙ f.owners id info e;
  tuples = λ key mr e. g.tuples key mr (f.tuples key mr e);
}

pub zero_or_positive : (n : ℕ) → (n ≡ 0) ⊎ (0 < n)
zero_or_positive zero = inl refl
zero_or_positive (suc n) = inr (omega arith)

pub new-IsSound : IsSound new
unfolding new get
new-IsSound = record {
  provider = new-IsProvider;
  grouped = record { at = λ group entry e. cc };
  owned = λ id info e. cc;
}

module _ (name : Str) (buffer : Vector) (p : Provider) where
  abbrev registered : Provider
  registered = (register_typed name buffer p).1

  pub registered_none : buffer.elem.size ≡ 0 → registered ≡ p
  unfolding register_typed
  registered_none zero_sized = ground arith

  registered_owners : 0 < buffer.elem.size → registered.owners ≡ insert p.next_id buffer p.owners
  unfolding register_typed
  registered_owners pos = ground arith

  pub registered-Keeps : IsProvider p → 0 < buffer.elem.size → Keeps p registered
  registered-Keeps h pos = record {
    catalog = λ id info e.
        rw (registered_shared name buffer p pos)
          (get-insert_ne p.next_id id _ p.shared.catalog (fresh id info e) ∙ e);
    owners = λ id info e.
        rw (registered_owners pos) (get-insert_ne p.next_id id buffer p.owners (fresh id info e));
    tuples = λ key mr e. rw (registered_shared name buffer p pos) e;
  }
    where
      fresh :
          (id : ℕ) (info : RegionInfo) → get id p.shared.catalog ≡ some info → ¬ (p.next_id ≡ id)
      fresh id info e = omega (arith, h.below id info e)

  pub registered-IsSound :
      IsSound p → 0 < buffer.elem.size → p.next_id + 1 < 2 ^ 32 → IsSound registered
  registered-IsSound h pos fits = record {
    provider = register_typed-IsProvider name buffer p h.provider pos fits;
    grouped = rw (registered_shared name buffer p pos) h.grouped;
    owned = λ id info e.
        rw (registered_owners pos) (placed id info (rw (registered_shared name buffer p pos) at e));
  }
    where
      placed :
          (id : ℕ) (info : RegionInfo)
          → get id (insert p.next_id (region_info name buffer) p.shared.catalog) ≡ some info
          → Owned (insert p.next_id buffer p.owners) id info
      placed id info e = elim (key-cases p.next_id id) [
        | inl same ↦
            let made : RegionInfo = region_info name buffer in
            let found : ◌≡◌ {A = Option RegionInfo} (some made) (some info) =
              sym (get-insert_self p.next_id made p.shared.catalog)
              ∙ ap (λ k. get k (insert p.next_id made p.shared.catalog)) same
              ∙ e in
            let this : made ≡ info = cc in
            record {
              buffer = buffer;
              owner =
                  ap (λ k. get k (insert p.next_id buffer p.owners)) (sym same)
                  ∙ get-insert_self p.next_id buffer p.owners;
              addr = ap (λ (i : RegionInfo). i.remote_addr) (sym this) ∙ unfold region_info in refl;
              size = ap (λ (i : RegionInfo). i.size) (sym this) ∙ unfold region_info in refl;
            }
        | inr apart ↦
            let old = h.owned id info (
              sym (get-insert_ne p.next_id id (region_info name buffer) p.shared.catalog apart)
              ∙ e) in
            record {
              buffer = old.buffer;
              owner = get-insert_ne p.next_id id buffer p.owners apart ∙ old.owner;
              addr = old.addr;
              size = old.size;
            }
      ]

-- A change of the shared state that leaves the catalog.
pub changed-IsSound :
    (p : Provider) (b : Shared)
    → b.catalog ≡ p.shared.catalog
    → IsShared b
    → IsGrouped b.groups
    → IsSound p
    → IsSound (record p { shared = b })
changed-IsSound p b same shared grouped h = record {
  provider = record {
    shared = shared;
    distinct = rw same h.provider.distinct;
    below = λ id info e. h.provider.below id info (sym (ap (get id) same) ∙ e);
  };
  grouped = grouped;
  owned = λ id info e. h.owned id info (sym (ap (get id) same) ∙ e);
}

-- What a thread makes of the shared state, the provider being otherwise as it was.
module _ (p : Provider) (b : Shared) (f : Evolves p.shared b) where
  abbrev evolved : Provider
  evolved = record p { shared = b }

  pub evolved-Keeps : Keeps p evolved
  evolved-Keeps = record {
    catalog = λ id info e. ap (get id) f.catalog ∙ e;
    owners = λ id info e. refl;
    tuples = f.tuples;
  }

  pub evolved-IsSound : IsSound p → IsGrouped b.groups → IsSound evolved
  evolved-IsSound h grouped = changed-IsSound p b f.catalog (f.shared h.provider.shared) grouped h
