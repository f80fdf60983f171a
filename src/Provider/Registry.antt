-- ===== src/Provider/Registry.antt =====
-- Registrations with the provider: fresh ids, and what stays.
use rdmalib.Base.{
  ℕ, ◌+◌, ◌*◌, ◌%◌, ◌^◌, ◌<◌, ◌≡◌, inl, inr, sym, ◌∙◌, none, some, Option-cases, ◌==◌,
  if◌then◌else◌, arith,
}
use rdmalib.Base.Io.{ok}
use rdmalib.Base.Map.{
  get, insert, nat_key, pair_key, get-insert, get-insert_ne, key-cases, Distinct, insert-Distinct,
}
use rdmalib.Meta.Message.{Str}
use rdmalib.Provider.State.{RegionInfo, Shared, Vector, Provider, new, region_info, register_typed}
use rdmalib.Provider.Sharing.{IsShared}

-- The provider's own promise: ids below the counter, none twice, tuples of registered regions only.
pub record IsProvider (p : Provider) : Type 0 where
  pub shared : IsShared p.shared
  pub distinct : Distinct p.shared.catalog
  pub below : (id : ℕ) (info : RegionInfo) → get id p.shared.catalog ≡ some info → id < p.next_id

pub new-IsProvider : IsProvider new
unfolding new get
new-IsProvider = record {
  shared = record { at = λ id group mr e. cc };
  distinct = tt;
  below = λ id info e. cc;
}

-- What is to be advertised of a buffer; the sizes of its elements are numbers of 32 bits.
abbrev pub advertised : Str → Vector → RegionInfo
advertised name buffer = record {
  name = name;
  remote_addr = buffer.addr;
  size = buffer.len * buffer.elem.size;
  elem_size = buffer.elem.size % 2 ^ 32;
  elem_align = buffer.elem.align % 2 ^ 32;
  elem_type = buffer.elem.name;
}

module _ (name : Str) (buffer : Vector) (p : Provider) where
  abbrev registered : Provider
  registered = (register_typed name buffer p).1

  -- For a provider that keeps its promise and elements that are not zero-sized, a registration
  -- takes an id that no region has and puts a region under it: its name the given one, its address
  -- the buffer's, its size the number of elements times their size in bytes, the size and the
  -- alignment of an element modulo 2 to the 32, the name of its type. No other region, group or
  -- tuple is touched.
  pub register_typed_fresh :
      IsProvider p
      → 0 < buffer.elem.size
      → ((register_typed name buffer p).0 ≡ ok p.next_id)
        × (get p.next_id p.shared.catalog ≡ none)
        × ((id : ℕ)
            → get id registered.shared.catalog ≡ (
                if p.next_id == id then some (advertised name buffer) else get id p.shared.catalog))
        × (registered.shared.groups ≡ p.shared.groups)
        × (registered.shared.tuples ≡ p.shared.tuples)
  unfolding register_typed region_info
  register_typed_fresh h pos = elim (Option-cases (get p.next_id p.shared.catalog)) [
    | inr (info, e) ↦ absurd (omega (arith, h.below p.next_id info e))
    | inl e ↦ (
      ground arith,
      e,
      λ id. ground (arith, get-insert p.next_id id (region_info name buffer) p.shared.catalog),
      ground arith,
      ground arith,
    )
  ]

  pub registered_shared :
      0 < buffer.elem.size
      → registered.shared ≡ record (p.shared) {
        catalog = insert p.next_id (region_info name buffer) p.shared.catalog;
      }
  unfolding register_typed
  registered_shared pos = ground arith

  registered_next :
      0 < buffer.elem.size → p.next_id + 1 < 2 ^ 32 → registered.next_id ≡ p.next_id + 1
  unfolding register_typed
  registered_next pos fits = ground arith

  grown : Shared
  grown = record (p.shared) {
    catalog = insert p.next_id (region_info name buffer) p.shared.catalog;
  }

  grown-IsShared : IsProvider p → IsShared grown
  unfolding grown
  grown-IsShared h = record {
    at = λ id group mr e.
        let old = h.shared.at id group mr e in
        let apart : ¬ (p.next_id ≡ id) = omega (arith, h.below id old.info old.region) in
        record {
          info = old.info;
          entry = old.entry;
          region =
              get-insert_ne p.next_id id (region_info name buffer) p.shared.catalog apart
              ∙ old.region;
          joined = old.joined;
          addr = old.addr;
          size = old.size;
          pd = old.pd;
        };
  }

  -- A registration of elements that are not zero-sized, with the counter short of its last value,
  -- keeps the provider's promise: ids below the counter, none twice, and every tuple of a
  -- registered region and a known group.
  pub register_typed-IsProvider :
      IsProvider p → 0 < buffer.elem.size → p.next_id + 1 < 2 ^ 32 → IsProvider registered
  register_typed-IsProvider h pos fits = record {
    shared = rw (registered_shared pos) (unfold grown in grown-IsShared h);
    distinct = rw (registered_shared pos) (insert-Distinct p.next_id _ p.shared.catalog h.distinct);
    below = λ id info e. rw (registered_next pos fits) (elim (key-cases p.next_id id) [
      | inl same ↦ omega arith
      | inr other ↦ omega (
        arith,
        h.below id info (
            sym (get-insert_ne p.next_id id (region_info name buffer) p.shared.catalog other)
            ∙ rw (registered_shared pos) at e),
      )
    ]);
  }
