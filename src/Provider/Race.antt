-- ===== src/Provider/Race.antt =====
-- src/providers.rs: `tuple_of` by two threads at once. Its locks are taken one at a time, so other
-- threads may run between its steps.
use rdmalib.Base.{ℕ, ◌≡◌, refl, ap, ◌∙◌, none, some, List, [], ◌∷◌, ◌++◌}
use rdmalib.Base.Io.{IoResult, ok}
use rdmalib.Base.Map.{get, insert, nat_key, pair_key, get-insert_self}
use rdmalib.Rdma.Calls.{Library, Host, call, ask, ibv_dereg_mr}
use rdmalib.Rdma.Domain.{MemoryRegion, ProtectionDomain, register_addr, drop_region, tuple}
use rdmalib.Provider.Phases.{
  Phase, at_tuples, at_groups, at_catalog, at_register, at_insert, finished, from_tuples,
  from_groups, from_catalog, from_register, step,
}
use rdmalib.Provider.State.{RegionInfo, GroupEntry, Sharing, insert_tuple, drop_replaced}

-- Two threads in `tuple_of`, and the state that they share.
pub record Threads (lib : Library) : Type 0 where
  pub first : Phase
  pub second : Phase
  pub sharing : Sharing lib

pub data Turn : Type 0 where
  first_moves second_moves : Turn

module _ (lib : Library) (id group : ℕ) where
  unfoldable pub move : Turn → Threads lib → Threads lib
  move first_moves t =
      let (p, s) = step lib id group t.first t.sharing in record t { first = p; sharing = s }
  move second_moves t =
      let (p, s) = step lib id group t.second t.sharing in record t { second = p; sharing = s }

  unfoldable pub run : List Turn → Threads lib → Threads lib
  unfolding move
  run [] t = t
  run (turn ∷ turns) t = run turns (move turn t)

  abbrev pub starting : Sharing lib → Threads lib
  starting s = record { first = at_tuples; second = at_tuples; sharing = s }

  -- Both look for the tuple before either has made it.
  abbrev pub interleaved : List Turn
  interleaved =
      first_moves ∷ first_moves ∷ first_moves ∷ second_moves ∷ second_moves ∷ second_moves
      ∷ first_moves ∷ second_moves ∷ first_moves ∷ second_moves ∷ []

  abbrev pub raced : Sharing lib → Threads lib
  raced s = run interleaved (starting s)

  abbrev at : Phase → Phase → Sharing lib → Threads lib
  at p q s = record { first = p; second = q; sharing = s }

  run_first :
      (turns : List Turn) (p q p' : Phase) (s s' : Sharing lib)
      → step lib id group p s ≡ (p', s')
      → run (first_moves ∷ turns) (at p q s) ≡ run turns (at p' q s')
  unfolding run move
  run_first turns p q p' s s' e = ap (λ (r : Phase × Sharing lib). run turns (at r.0 q r.1)) e

  run_second :
      (turns : List Turn) (p q q' : Phase) (s s' : Sharing lib)
      → step lib id group q s ≡ (q', s')
      → run (second_moves ∷ turns) (at p q s) ≡ run turns (at p q' s')
  unfolding run move
  run_second turns p q q' s s' e = ap (λ (r : Phase × Sharing lib). run turns (at p r.0 r.1)) e

  run_end : (t : Threads lib) → run [] t ≡ t
  unfolding run
  run_end t = refl

  step_tuples :
      (s : Sharing lib)
      → get (id, group) s.shared.tuples ≡ none
      → step lib id group at_tuples s ≡ (at_groups, s)
  unfolding step from_tuples
  step_tuples s e = ap (λ o. (from_tuples o, s)) e

  step_groups :
      (s : Sharing lib) (entry : GroupEntry)
      → get group s.shared.groups ≡ some entry
      → step lib id group at_groups s ≡ (at_catalog entry.pd, s)
  unfolding step from_groups
  step_groups s entry e = ap (λ o. (from_groups o, s)) e

  step_catalog :
      (s : Sharing lib) (pd : ProtectionDomain) (info : RegionInfo)
      → get id s.shared.catalog ≡ some info
      → step lib id group (at_catalog pd) s ≡ (at_register pd info, s)
  unfolding step from_catalog
  step_catalog s pd info e = ap (λ o. (from_catalog pd o, s)) e

  step_register :
      (s : Sharing lib) (pd : ProtectionDomain) (info : RegionInfo) (mr : MemoryRegion)
      (h : Host lib.World)
      → register_addr lib pd info.remote_addr info.size s.host ≡ (ok mr, h)
      → step lib id group (at_register pd info) s ≡ (at_insert mr, record s { host = h })
  unfolding step from_register
  step_register s pd info mr h e =
      ap
        (λ (r : IoResult MemoryRegion × Host lib.World).
          (from_register r.0, record s { host = r.1 }))
        e

  step_insert :
      (s : Sharing lib) (mr : MemoryRegion)
      → step lib id group (at_insert mr) s
        ≡ (finished (ok (some (tuple mr))), insert_tuple lib (id, group) mr s)
  unfolding step
  step_insert s mr = refl

  -- The state after both insertions into a host.
  abbrev inserted : MemoryRegion → MemoryRegion → Sharing lib → Host lib.World → Sharing lib
  inserted mr₁ mr₂ s h =
      insert_tuple lib (id, group) mr₂ (insert_tuple lib (id, group) mr₁ (record s { host = h }))

  inserted_log :
      (mr₁ mr₂ : MemoryRegion) (s : Sharing lib) (h : Host lib.World)
      → get (id, group) s.shared.tuples ≡ none
      → (inserted mr₁ mr₂ s h).host.log ≡ h.log ++ (ibv_dereg_mr mr₁.mr ∷ [])
  unfolding insert_tuple drop_replaced drop_region call ask
  inserted_log mr₁ mr₂ s h e = rw (get-insert_self (id, group) mr₁ s.shared.tuples) (rw e refl)

  inserted_tuple :
      (mr₁ mr₂ : MemoryRegion) (s : Sharing lib) (h : Host lib.World)
      → get (id, group) (inserted mr₁ mr₂ s h).shared.tuples ≡ some mr₂
  unfolding insert_tuple
  inserted_tuple mr₁ mr₂ s h =
      get-insert_self (id, group) mr₂ (insert (id, group) mr₁ s.shared.tuples)

  module _ (s : Sharing lib) (entry : GroupEntry) (info : RegionInfo) (mr₁ mr₂ : MemoryRegion)
      (h₁ h₂ : Host lib.World) where
    raced_state :
        get (id, group) s.shared.tuples ≡ none
        → get group s.shared.groups ≡ some entry
        → get id s.shared.catalog ≡ some info
        → register_addr lib entry.pd info.remote_addr info.size s.host ≡ (ok mr₁, h₁)
        → register_addr lib entry.pd info.remote_addr info.size h₁ ≡ (ok mr₂, h₂)
        → raced s
          ≡ at
              (finished (ok (some (tuple mr₁))))
              (finished (ok (some (tuple mr₂))))
              (inserted mr₁ mr₂ s h₂)
    raced_state none_yet joined region reg₁ reg₂ =
        run_first _ _ _ _ s s (step_tuples s none_yet)
        ∙ run_first _ _ _ _ s s (step_groups s entry joined)
        ∙ run_first _ _ _ _ s s (step_catalog s entry.pd info region)
        ∙ run_second _ _ _ _ s s (step_tuples s none_yet)
        ∙ run_second _ _ _ _ s s (step_groups s entry joined)
        ∙ run_second _ _ _ _ s s (step_catalog s entry.pd info region)
        ∙ run_first _ _ _ _ s (record s { host = h₁ }) (step_register s entry.pd info mr₁ h₁ reg₁)
        ∙ run_second _ _ _ _ (record s { host = h₁ }) (record s { host = h₂ })
            (step_register (record s { host = h₁ }) entry.pd info mr₂ h₂ reg₂)
        ∙ run_first _ _ _ _ _ _ (step_insert (record s { host = h₂ }) mr₁)
        ∙ run_second _ _ _ _ _ _ (step_insert _ mr₂)
        ∙ run_end _

    -- Two threads ask for the same tuple, which does not exist, each having looked for it before
    -- either has made it, and both registrations succeed: then both threads answer with their own
    -- registration, the second is kept, and the first is deregistered.
    pub tuple_of_race :
        get (id, group) s.shared.tuples ≡ none
        → get group s.shared.groups ≡ some entry
        → get id s.shared.catalog ≡ some info
        → register_addr lib entry.pd info.remote_addr info.size s.host ≡ (ok mr₁, h₁)
        → register_addr lib entry.pd info.remote_addr info.size h₁ ≡ (ok mr₂, h₂)
        → ((raced s).first ≡ finished (ok (some (tuple mr₁))))
          × ((raced s).second ≡ finished (ok (some (tuple mr₂))))
          × (get (id, group) (raced s).sharing.shared.tuples ≡ some mr₂)
          × ((raced s).sharing.host.log ≡ h₂.log ++ (ibv_dereg_mr mr₁.mr ∷ []))
    tuple_of_race none_yet joined region reg₁ reg₂ =
        let e = raced_state none_yet joined region reg₁ reg₂ in
        (
          ap (λ (t : Threads lib). t.first) e,
          ap (λ (t : Threads lib). t.second) e,
          ap (λ (t : Threads lib). get (id, group) t.sharing.shared.tuples) e
              ∙ inserted_tuple mr₁ mr₂ s h₂,
          ap (λ (t : Threads lib). t.sharing.host.log) e ∙ inserted_log mr₁ mr₂ s h₂ none_yet,
        )
