-- ===== src/Provider/Tuples.antt =====
-- `tuple_of`: one tuple for a region and a group, created once and kept.
use rdmalib.Base.{ℕ, ◌≡◌, inl, inr, refl, ap, subst, ◌∙◌, Option, none, some, Option-cases}
use rdmalib.Base.Io.{IoResult, ErrorKind, ok, err}
use rdmalib.Base.Map.{get, insert, nat_key, pair_key, get-insert_self}
use rdmalib.Rdma.Calls.{Library, Host}
use rdmalib.Rdma.Domain.{MemoryRegion, register_addr, tuple}
use rdmalib.Rdma.Registering.{Registered, register_addr-ok}
use rdmalib.Provider.State.{RegionInfo, GroupEntry, Sharing, tuple_of}

module _ (lib : Library) (id group : ℕ) (s : Sharing lib) where
  -- A tuple that exists is returned as it is.
  pub tuple_of_known :
      {mr : MemoryRegion}
      → get (id, group) s.shared.tuples ≡ some mr
      → tuple_of lib id group s ≡ (ok (some (tuple mr)), s)
  unfolding tuple_of
  tuple_of_known e = rw (e, tuple_of)

  -- The state that a new tuple leaves.
  abbrev created : MemoryRegion → Host lib.World → Sharing lib
  created mr h = record {
    shared = record (s.shared) { tuples = insert (id, group) mr s.shared.tuples };
    host = h;
  }

  tuple_of_new :
      {entry : GroupEntry} {info : RegionInfo} {mr : MemoryRegion} {h : Host lib.World}
      → get (id, group) s.shared.tuples ≡ none
      → get group s.shared.groups ≡ some entry
      → get id s.shared.catalog ≡ some info
      → register_addr lib entry.pd info.remote_addr info.size s.host ≡ (ok mr, h)
      → tuple_of lib id group s ≡ (ok (some (tuple mr)), created mr h)
  unfolding tuple_of
  tuple_of_new e f g k = rw (e, tuple_of) (rw f (rw g (rw k (rw e))))

  tuple_of_failed :
      {entry : GroupEntry} {info : RegionInfo} {x : ErrorKind} {h : Host lib.World}
      → get (id, group) s.shared.tuples ≡ none
      → get group s.shared.groups ≡ some entry
      → get id s.shared.catalog ≡ some info
      → register_addr lib entry.pd info.remote_addr info.size s.host ≡ (err x, h)
      → tuple_of lib id group s ≡ (err x, record s { host = h })
  unfolding tuple_of
  tuple_of_failed e f g k = rw (e, tuple_of) (rw f (rw g (rw k)))

  tuple_of_no_group :
      get (id, group) s.shared.tuples ≡ none
      → get group s.shared.groups ≡ none
      → tuple_of lib id group s ≡ (ok none, s)
  unfolding tuple_of
  tuple_of_no_group e f = rw (e, tuple_of) (rw f)

  tuple_of_no_region :
      {entry : GroupEntry}
      → get (id, group) s.shared.tuples ≡ none
      → get group s.shared.groups ≡ some entry
      → get id s.shared.catalog ≡ none
      → tuple_of lib id group s ≡ (ok none, s)
  unfolding tuple_of
  tuple_of_no_region e f g = rw (e, tuple_of) (rw f (rw g))

  -- How a call of `tuple_of` can end.
  pub data Outcome (p : IoResult (Option (ℕ × ℕ × ℕ)) × Sharing lib) : Type 0 where
    known :
        (mr : MemoryRegion)
        → get (id, group) s.shared.tuples ≡ some mr
        → p ≡ (ok (some (tuple mr)), s)
        → Outcome p
    fresh :
        (entry : GroupEntry) (info : RegionInfo) (mr : MemoryRegion) (h : Host lib.World)
        → get (id, group) s.shared.tuples ≡ none
        → get group s.shared.groups ≡ some entry
        → get id s.shared.catalog ≡ some info
        → Registered lib entry.pd info.remote_addr info.size s.host mr h
        → p ≡ (ok (some (tuple mr)), created mr h)
        → Outcome p
    failed :
        (x : ErrorKind) (h : Host lib.World)
        → get (id, group) s.shared.tuples ≡ none
        → p ≡ (err x, record s { host = h })
        → Outcome p
    absent : get (id, group) s.shared.tuples ≡ none → p ≡ (ok none, s) → Outcome p

  registered-Outcome :
      (entry : GroupEntry) (info : RegionInfo)
      → get (id, group) s.shared.tuples ≡ none
      → get group s.shared.groups ≡ some entry
      → get id s.shared.catalog ≡ some info
      → (p : IoResult MemoryRegion × Host lib.World)
      → register_addr lib entry.pd info.remote_addr info.size s.host ≡ p
      → Outcome (tuple_of lib id group s)
  registered-Outcome entry info e f g (ok mr, h) k =
      fresh entry info mr h e f g
        (register_addr-ok lib entry.pd info.remote_addr info.size s.host k) (tuple_of_new e f g k)
  registered-Outcome entry info e f g (err x, h) k = failed x h e (tuple_of_failed e f g k)

  pub tuple_of-Outcome : Outcome (tuple_of lib id group s)
  tuple_of-Outcome = elim (Option-cases (get (id, group) s.shared.tuples)) [
    | inr (mr, e) ↦ known mr e (tuple_of_known e)
    | inl e ↦ elim (Option-cases (get group s.shared.groups)) [
      | inl f ↦ absent e (tuple_of_no_group e f)
      | inr (entry, f) ↦ elim (Option-cases (get id s.shared.catalog)) [
        | inl g ↦ absent e (tuple_of_no_region e f g)
        | inr (info, g) ↦ registered-Outcome entry info e f g _ refl
      ]
    ]
  ]

-- The tuple at hand after a call that returned one.
held :
    (lib : Library) (id group : ℕ) (s : Sharing lib) {t : ℕ × ℕ × ℕ} {s' : Sharing lib}
    → tuple_of lib id group s ≡ (ok (some t), s')
    → (mr : MemoryRegion) × (get (id, group) s'.shared.tuples ≡ some mr) × (tuple mr ≡ t)
held lib id group s {t} {s'} e = go _ refl (tuple_of-Outcome lib id group s)
  where
    go :
        (p : IoResult (Option (ℕ × ℕ × ℕ)) × Sharing lib)
        → tuple_of lib id group s ≡ p
        → Outcome lib id group s p
        → (mr : MemoryRegion) × (get (id, group) s'.shared.tuples ≡ some mr) × (tuple mr ≡ t)
    go p q (known mr k r) =
        let same : s ≡ s' = cc in
        (mr, subst (λ (w : Sharing lib). get (id, group) w.shared.tuples ≡ some mr) same k, cc)
    go p q (fresh entry info mr h k g c reg r) =
        let same : created lib id group s mr h ≡ s' = cc in
        (
          mr,
          subst (λ (w : Sharing lib). get (id, group) w.shared.tuples ≡ some mr) same
              (get-insert_self (id, group) mr s.shared.tuples),
          cc,
        )
    go p q (failed x h k r) = cc
    go p q (absent k r) = cc

-- After a `tuple_of` that returned a tuple, a second one for the same region and group returns the
-- same tuple, makes no call and changes nothing.
pub tuple_of_again :
    (lib : Library) (id group : ℕ) (s : Sharing lib) {t : ℕ × ℕ × ℕ} {s' : Sharing lib}
    → tuple_of lib id group s ≡ (ok (some t), s')
    → tuple_of lib id group s' ≡ (ok (some t), s')
tuple_of_again lib id group s {t} {s'} e =
    let (mr, at, same) = held lib id group s e in
    tuple_of_known lib id group s' at ∙ ap (λ k. (ok (some k), s')) same
