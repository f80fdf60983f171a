-- ===== src/Provider/Sharing.antt =====
-- What the provider's shared state promises, and that `tuple_of` keeps it.
use rdmalib.Base.{
  ℕ, ◌≡◌, inl, inr, sym, ap, subst, ◌∙◌, Option, none, some, List, [], ◌∷◌, ◌++◌, append-nil,
}
use rdmalib.Base.Io.{IoResult}
use rdmalib.Base.Map.{
  Map, get, insert, nat_key, pair_key, get-insert_self, get-insert_ne, key-cases,
}
use rdmalib.Meta.Message.{TupleDesc}
use rdmalib.Rdma.Calls.{Library, Host}
use rdmalib.Rdma.Domain.{MemoryRegion, tuple}
use rdmalib.Rdma.Registering.{Registered}
use rdmalib.Provider.State.{RegionInfo, GroupEntry, Shared, Sharing, tuple_of, push_tuple}
use rdmalib.Provider.Tuples.{known, fresh, failed, absent, tuple_of-Outcome}

-- The tuple reaches the region's memory, and its key is one of the group's protection domain.
pub record Serves (shared : Shared) (id group : ℕ) (mr : MemoryRegion) : Type 0 where
  pub info : RegionInfo
  pub entry : GroupEntry
  pub region : get id shared.catalog ≡ some info
  pub joined : get group shared.groups ≡ some entry
  pub addr : mr.addr ≡ info.remote_addr
  pub size : mr.size ≡ info.size
  pub pd : mr.pd ≡ entry.pd.pd

-- Every tuple is of a registered region and a group that has readers.
pub record IsShared (shared : Shared) : Type 0 where
  pub at :
      (id group : ℕ) (mr : MemoryRegion)
      → get (id, group) shared.tuples ≡ some mr
      → Serves shared id group mr

module _ (shared : Shared) (id group : ℕ) where
  -- An insertion of a registration of that region in that group's domain.
  pub insert-IsShared :
      (mr : MemoryRegion)
      → Serves shared id group mr
      → IsShared shared
      → IsShared (record shared { tuples = insert (id, group) mr shared.tuples })
  insert-IsShared mr new h = record {
    at = λ j g m e. elim (key-cases {K = ℕ × ℕ} (id, group) (j, g)) [
      | inl same ↦
          let found : ◌≡◌ {A = Option MemoryRegion} (some mr) (some m) =
            sym (get-insert_self (id, group) mr shared.tuples)
            ∙ ap (λ (k : ℕ × ℕ). get k (insert (id, group) mr shared.tuples)) same
            ∙ e in
          let this : mr ≡ m = cc in
          moved m (
            subst (λ (k : ℕ × ℕ). Serves shared k.0 k.1 m) same
              (subst (λ x. Serves shared id group x) this new))
      | inr other ↦
          moved m (h.at j g m (sym (get-insert_ne (id, group) (j, g) mr shared.tuples other) ∙ e))
    ];
  }
    where
      moved :
          {j g : ℕ} (m : MemoryRegion)
          → Serves shared j g m
          → Serves (record shared { tuples = insert (id, group) mr shared.tuples }) j g m
      moved m s = record {
        info = s.info;
        entry = s.entry;
        region = s.region;
        joined = s.joined;
        addr = s.addr;
        size = s.size;
        pd = s.pd;
      }

-- The tuple of one region in the tuples message, if the provider holds one.
abbrev pub served_one : ℕ → Option MemoryRegion → List TupleDesc
served_one id none = []
served_one id (some mr) =
    (record { region_id = id; remote_addr = mr.addr; size = mr.size; rkey = mr.rkey }) ∷ []

-- The tuples that the provider holds of the listed regions for a group.
abbrev pub served : ℕ → Map (ℕ × ℕ) MemoryRegion → Map ℕ RegionInfo → List TupleDesc
served group ts [] = []
served group ts ((id, info) ∷ rest) = served_one id (get (id, group) ts) ++ served group ts rest

module _ (lib : Library) (id group : ℕ) (s : Sharing lib) where
  abbrev pub after : Sharing lib
  after = (tuple_of lib id group s).1

  state_eq :
      {p q : IoResult (Option (ℕ × ℕ × ℕ)) × Sharing lib} {A : Type 0} (f : Sharing lib → A)
      → p ≡ q
      → f p.1 ≡ f q.1
  state_eq f e = ap (λ (r : IoResult (Option (ℕ × ℕ × ℕ)) × Sharing lib). f r.1) e

  pub tuple_of_catalog : after.shared.catalog ≡ s.shared.catalog
  tuple_of_catalog = elim (tuple_of-Outcome lib id group s) [
    | known mr k r ↦ state_eq (λ w. w.shared.catalog) r
    | fresh entry info mr h k g c reg r ↦ state_eq (λ w. w.shared.catalog) r
    | failed x h k r ↦ state_eq (λ w. w.shared.catalog) r
    | absent k r ↦ state_eq (λ w. w.shared.catalog) r
  ]

  pub tuple_of_groups : after.shared.groups ≡ s.shared.groups
  tuple_of_groups = elim (tuple_of-Outcome lib id group s) [
    | known mr k r ↦ state_eq (λ w. w.shared.groups) r
    | fresh entry info mr h k g c reg r ↦ state_eq (λ w. w.shared.groups) r
    | failed x h k r ↦ state_eq (λ w. w.shared.groups) r
    | absent k r ↦ state_eq (λ w. w.shared.groups) r
  ]

  pub tuple_of_elsewhere :
      (key : ℕ × ℕ) → ¬ ((id, group) ≡ key) → get key after.shared.tuples ≡ get key s.shared.tuples
  tuple_of_elsewhere key ne = elim (tuple_of-Outcome lib id group s) [
    | known mr k r ↦ state_eq (λ w. get key w.shared.tuples) r
    | fresh entry info mr h k g c reg r ↦
        state_eq (λ w. get key w.shared.tuples) r
        ∙ get-insert_ne (id, group) key mr s.shared.tuples ne
    | failed x h k r ↦ state_eq (λ w. get key w.shared.tuples) r
    | absent k r ↦ state_eq (λ w. get key w.shared.tuples) r
  ]

  -- The result is the tuple that the state then holds, if any.
  pub tuple_of_pushes :
      (descs : List TupleDesc)
      → push_tuple lib id descs (tuple_of lib id group s).0
        ≡ descs ++ served_one id (get (id, group) after.shared.tuples)
  unfolding push_tuple tuple
  tuple_of_pushes descs = elim (tuple_of-Outcome lib id group s) [
    | known mr k r ↦
        ap (λ q. push_tuple lib id descs q) (ap (λ p. p.0) r)
        ∙ ap (λ o. descs ++ served_one id o)
            (sym (state_eq (λ w. get (id, group) w.shared.tuples) r ∙ k))
    | fresh entry info mr h k g c reg r ↦
        ap (λ q. push_tuple lib id descs q) (ap (λ p. p.0) r)
        ∙ ap (λ o. descs ++ served_one id o)
            (sym (
              state_eq (λ w. get (id, group) w.shared.tuples) r
              ∙ get-insert_self (id, group) mr s.shared.tuples))
    | failed x h k r ↦
        ap (λ q. push_tuple lib id descs q) (ap (λ p. p.0) r)
        ∙ sym (append-nil descs)
        ∙ ap (λ o. descs ++ served_one id o)
            (sym (state_eq (λ w. get (id, group) w.shared.tuples) r ∙ k))
    | absent k r ↦
        ap (λ q. push_tuple lib id descs q) (ap (λ p. p.0) r)
        ∙ sym (append-nil descs)
        ∙ ap (λ o. descs ++ served_one id o)
            (sym (state_eq (λ w. get (id, group) w.shared.tuples) r ∙ k))
  ]

  fresh_serves :
      (shared : IsShared s.shared) (entry : GroupEntry) (info : RegionInfo) (mr : MemoryRegion)
      (h : Host lib.World)
      → get group s.shared.groups ≡ some entry
      → get id s.shared.catalog ≡ some info
      → Registered lib entry.pd info.remote_addr info.size s.host mr h
      → IsShared (record (s.shared) { tuples = insert (id, group) mr s.shared.tuples })
  fresh_serves shared entry info mr h joined region reg =
      insert-IsShared s.shared id group mr
        (record {
          info = info;
          entry = entry;
          region = region;
          joined = joined;
          addr = reg.addr;
          size = reg.size;
          pd = reg.pd;
        })
        shared

  -- Whatever `tuple_of` returns, every tuple still reaches its region through its group's domain.
  pub tuple_of-IsShared : IsShared s.shared → IsShared after.shared
  tuple_of-IsShared h = elim (tuple_of-Outcome lib id group s) [
    | known mr k r ↦ subst IsShared (sym (state_eq (λ w. w.shared) r)) h
    | fresh entry info mr k n g c reg r ↦
        subst IsShared (sym (state_eq (λ w. w.shared) r)) (fresh_serves h entry info mr k g c reg)
    | failed x k n r ↦ subst IsShared (sym (state_eq (λ w. w.shared) r)) h
    | absent k r ↦ subst IsShared (sym (state_eq (λ w. w.shared) r)) h
  ]
