-- ===== src/Provider/Lifetime.antt =====
-- The provider over its whole life: what every tuple reaches, and that nothing is taken back.
use rdmalib.Base.{ℕ, ◌*◌, ◌≡◌, inl, inr, sym, subst, ◌∙◌, some, All}
use rdmalib.Base.Map.{get, nat_key, pair_key}
use rdmalib.Rdma.Calls.{Library, Host}
use rdmalib.Rdma.Domain.{MemoryRegion}
use rdmalib.Provider.State.{GroupEntry, Shared, Vector, Provider}
use rdmalib.Provider.Sharing.{Serves, tuple_of_groups}
use rdmalib.Provider.Catalog.{catalog_and_tuples_groups}
use rdmalib.Provider.Joining.{LivesIn, IsGrouped, handshake-IsGrouped}
use rdmalib.Provider.Evolving.{
  Evolves, next_round_cases, tuple_of-Evolves, handshake-Evolves, next_round-Evolves,
}
use rdmalib.Provider.System.{
  System, Step, registers, looks_up, serves, answers, Reach, here, next, sharing, started,
  get_shared_mr, register_in, serve_stream, serve_round,
}
use rdmalib.Provider.Sound.{
  IsSound, Keeps, zero_or_positive, Keeps-refl, Keeps-trans, new-IsSound, registered_none,
  registered-Keeps, registered-IsSound, evolved-IsSound, evolved-Keeps,
}

module _ (lib : Library) where
  -- A step keeps the invariant, and takes nothing back.
  abbrev Good : Provider → Provider → Type 0
  Good p q = IsSound q × Keeps p q

  evolved-Good :
      (p : Provider) (b : Shared)
      → IsSound p
      → Evolves p.shared b
      → (IsGrouped p.shared.groups → IsGrouped b.groups)
      → Good p (record p { shared = b })
  evolved-Good p b h f grouped = (evolved-IsSound p b f h (grouped h.grouped), evolved-Keeps p b f)

  Step-Good : {y z : System lib} → Step lib y z → IsSound y.provider → Good y.provider z.provider
  unfolding register_in get_shared_mr serve_stream serve_round
  Step-Good {y = y} (registers name buffer fits) h = elim (zero_or_positive buffer.elem.size) [
    | inl none_left ↦
        subst (Good y.provider) (sym (registered_none name buffer y.provider none_left))
          (h, Keeps-refl y.provider)
    | inr pos ↦ (
      registered-IsSound name buffer y.provider h pos fits,
      registered-Keeps name buffer y.provider h.provider pos,
    )
  ]
  Step-Good {y = y} (looks_up id group) h =
      evolved-Good y.provider _ h (tuple_of-Evolves lib id group (sharing lib y))
        (λ g. rw (tuple_of_groups lib id group (sharing lib y)) g)
  Step-Good {y = y} (serves l stream) h =
      evolved-Good y.provider _ h (handshake-Evolves lib l stream (sharing lib y))
        (λ g. handshake-IsGrouped lib l stream (sharing lib y) g)
  Step-Good {y = y} (answers before (group, channel) after shutdown e) h =
      evolved-Good y.provider _ h (next_round-Evolves lib group shutdown channel (sharing lib y))
        (λ g.
          next_round_cases lib (λ s. IsGrouped s.shared.groups) group shutdown channel
            (sharing lib y) g (rw (catalog_and_tuples_groups lib group (sharing lib y)) g))

  Reach-Good : {y z : System lib} → Reach lib y z → IsSound y.provider → Good y.provider z.provider
  Reach-Good {y = y} here h = (h, Keeps-refl y.provider)
  Reach-Good (next run step) h =
      let (sound, kept) = Reach-Good run h in
      let (sound', kept') = Step-Good step sound in (sound', Keeps-trans kept kept')

  -- What a tuple for a group gives the group's readers: a buffer that the provider owns, at its
  -- address and for its size in bytes, through the domain that all the group's connections are in.
  pub record Reaches (p : Provider) (id group : ℕ) (mr : MemoryRegion) : Type 0 where
    pub buffer : Vector
    pub owner : get id p.owners ≡ some buffer
    pub addr : mr.addr ≡ buffer.addr
    pub size : mr.size ≡ buffer.len * buffer.elem.size
    pub entry : GroupEntry
    pub joined : get group p.shared.groups ≡ some entry
    pub pd : mr.pd ≡ entry.pd.pd
    pub lives : All (LivesIn entry.pd) entry.connections

  pub Serves-Reaches :
      (p : Provider) (id group : ℕ) (mr : MemoryRegion)
      → IsSound p
      → Serves p.shared id group mr
      → Reaches p id group mr
  Serves-Reaches p id group mr sound served =
      let owned = sound.owned id served.info served.region in
      record {
        buffer = owned.buffer;
        owner = owned.owner;
        addr = served.addr ∙ owned.addr;
        size = served.size ∙ owned.size;
        entry = served.entry;
        joined = served.joined;
        pd = served.pd;
        lives = sound.grouped.at group served.entry served.joined;
      }

  -- In every state that a new provider comes to, by registrations (the id counter short of its last
  -- value), looked-up tuples, handshakes that succeed or fail, and rounds of its sessions, in any
  -- order, each step run alone: each tuple that it holds for a region and a group is of a buffer that
  -- it owns under that id, at the buffer's address and of its size in bytes, and is registered in the
  -- domain that all of the group's connections are in.
  pub Reach-Reaches :
      (h : Host lib.World) (y : System lib) (id group : ℕ) (mr : MemoryRegion)
      → Reach lib (started lib h) y
      → get (id, group) y.provider.shared.tuples ≡ some mr
      → Reaches y.provider id group mr
  Reach-Reaches h y id group mr run held =
      let (sound, kept) = Reach-Good run new-IsSound in
      Serves-Reaches y.provider id group mr sound (sound.provider.shared.at id group mr held)

  -- A new provider that has come to one state and goes on to another, by the same steps, takes
  -- nothing back on the way: each region of its catalog stays, with the buffer that it owns for it,
  -- and so does each tuple.
  pub Reach-Keeps :
      (h : Host lib.World) (y z : System lib)
      → Reach lib (started lib h) y
      → Reach lib y z
      → Keeps y.provider z.provider
  Reach-Keeps h y z run on = (Reach-Good on (Reach-Good run new-IsSound).0).1
