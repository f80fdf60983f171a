-- ===== src/Remote/Handed.antt =====
-- Transfers and look-ups: cells stay filled, and what is looked up is connected.
use rdmalib.Base.{
  ℕ, ◌<◌, ◌≡◌, inl, inr, refl, sym, ap, ◌∙◌, Option, none, some, Option-cases, List, length,
  get_elem?, get_elem?_inside, set, subst,
}
use rdmalib.Base.Io.{IoResult, ok, err, IoResult-cases}
use rdmalib.Base.Map.{Map, insert, nat_key, pair_key, list_key, get-insert_self}
use rdmalib.Base.Map as Map
use rdmalib.Rdma.Calls.{Library, Host}
use rdmalib.Rdma.OneSided.{Connection, one_sided}
use rdmalib.Rdma.Domain.{MemoryRegion, drop_region}
use rdmalib.Remote.Region.{Slots, RemoteMemoryRegion, Transfer, Reader, get, operate, transfer}
use rdmalib.Remote.Client.{
  CachedRegion, RegionMetadata, GroupSession, get_remote_mr, find_group, or_default, slot_for,
}
use rdmalib.Remote.Session.{Client}
use rdmalib.Remote.Caches.{get-AllCached, find_group-All, group-find_group}
use rdmalib.Remote.Linked.{Filled, Linked, Extends-refl}
use rdmalib.Remote.Cells.{filling-Extends, filling-IsLinked}
use rdmalib.Remote.Growing.{IsReader, Grown, unmoved}

module _ (lib : Library) where
  -- A reader whose slots and host have changed.
  abbrev pub on : Client lib → Reader lib → Client lib
  on c s = record c { slots = s.slots; host = s.host }

  pub get-Filled :
      (slots : Slots) (slot : ℕ) {conn : Connection} → get slots slot ≡ ok conn → Filled slots slot
  unfolding get
  get-Filled slots slot {conn = conn} e = elim (Option-cases (get_elem? slots slot)) [
    | inl n ↦ cc (rw (n, get) at e)
    | inr (o, n) ↦ opened o n
  ]
    where
      opened : (o : Option Connection) → get_elem? slots slot ≡ some o → Filled slots slot
      opened none n = cc (rw (n, get) at e)
      opened (some conn') n = record { conn = conn'; cell = n }

  pub get_ready :
      (slots : Slots) (slot : ℕ) {conn : Connection}
      → get_elem? slots slot ≡ some (some conn)
      → get slots slot ≡ ok conn
  unfolding get
  get_ready slots slot e = rw (e, get)

  operate-Grown :
      (fuel opcode : ℕ) (t : Transfer) (rkey slot : ℕ) (conn : Connection)
      (p : IoResult MemoryRegion × Host lib.World) (c : Client lib) {r : IoResult (Unit {0})}
      {s : Reader lib}
      → operate lib fuel opcode t rkey slot conn p c.slots ≡ some (r, s)
      → Filled c.slots slot
      → IsReader lib c
      → Grown lib c (on c s)
  unfolding operate
  operate-Grown fuel opcode t rkey slot conn (err x, host) c {s = s} e f h =
      let same : record { slots = c.slots; host = host } ≡ s = cc in
      subst (λ (x : Reader lib). Grown lib c (on c x)) same
        (record { linked = h; extends = Extends-refl c.provider.sessions c.slots })
  operate-Grown fuel opcode t rkey slot conn (ok mr, host) c {s = s} e f h =
      elim (Option-cases (
        one_sided lib fuel opcode mr t.remote_addr rkey t.len
          (record { conn = conn; host = host }))) [
            | inl n ↦ cc (rw (n, operate) at e)
            | inr ((r', s'), n) ↦
                let same : record {
                  slots = set c.slots slot (some s'.conn);
                  host = (drop_region lib mr s'.host).1;
                }
                    ≡ s =
                  cc (rw (n, operate) at e) in
                let inside : slot < length c.slots = get_elem?_inside c.slots slot f.cell in
                subst (λ (x : Reader lib). Grown lib c (on c x)) same
                  (record {
                    linked = filling-IsLinked c.provider c.slots slot s'.conn inside h;
                    extends = filling-Extends c.provider c.slots slot s'.conn inside;
                  })
          ]

  pub transfer-Grown :
      (fuel opcode : ℕ) (region : RemoteMemoryRegion) (plan : IoResult Transfer) (c : Client lib)
      {r : IoResult (Unit {0})} {s : Reader lib}
      → transfer lib fuel opcode region plan (record { slots = c.slots; host = c.host })
        ≡ some (r, s)
      → IsReader lib c
      → Grown lib c (on c s)
  unfolding transfer
  transfer-Grown fuel opcode region (err x) c {s = s} e h =
      let same : record { slots = c.slots; host = c.host } ≡ s = cc in
      subst (λ (x : Reader lib). Grown lib c (on c x)) same (unmoved lib c h)
  transfer-Grown fuel opcode region (ok t) c {s = s} e h =
      elim (IoResult-cases (get c.slots region.connection)) [
        | inr (x, n) ↦
            let same : record { slots = c.slots; host = c.host } ≡ s = cc (rw (n, transfer) at e) in
            subst (λ (x : Reader lib). Grown lib c (on c x)) same (unmoved lib c h)
        | inl (conn, n) ↦
            operate-Grown fuel opcode t region.rkey region.connection conn _ c
              (rw (n, transfer) at e) (get-Filled c.slots region.connection n) h
      ]

  -- The region reads through the cell of its group's session and of no other, the cell holds a
  -- connection, and the group is the one asked for.
  pub record Uses (c : Client lib) (group : Option ℕ) (region : RemoteMemoryRegion) : Type 0 where
    pub session : GroupSession
    pub known : Map.get region.group c.provider.sessions ≡ some session
    pub cell : region.connection ≡ session.connection
    pub conn : Connection
    pub ready : get c.slots region.connection ≡ ok conn
    pub asked : (g : ℕ) → group ≡ some g → region.group ≡ g
    pub own :
        (g : ℕ) (other : GroupSession)
        → Map.get g c.provider.sessions ≡ some other
        → other.connection ≡ region.connection
        → g ≡ region.group

  module _ (md : RegionMetadata) (group : Option ℕ) (c : Client lib) where
    abbrev entry : List CachedRegion
    entry = or_default (Map.get (md.name, md.id) c.provider.regions)

    abbrev region_at : ℕ → CachedRegion → RemoteMemoryRegion
    region_at slot cached = record {
      connection = slot;
      remote_addr = cached.remote_addr;
      size = cached.size;
      rkey = cached.rkey;
      group = cached.group;
      elem_size = cached.elem_size;
      elem_align = cached.elem_align;
      elem_type = cached.elem_type;
    }

    get_remote_mr_unknown :
        find_group group entry ≡ none → get_remote_mr md group c.provider c.slots ≡ (none, c.slots)
    unfolding get_remote_mr
    get_remote_mr_unknown e = rw (e, get_remote_mr)

    get_remote_mr_found :
        (cached : CachedRegion) (session : GroupSession)
        → find_group group entry ≡ some cached
        → Map.get cached.group c.provider.sessions ≡ some session
        → get_remote_mr md group c.provider c.slots
          ≡ (some (region_at session.connection cached), c.slots)
    unfolding get_remote_mr slot_for
    get_remote_mr_found cached session e k = rw (e, get_remote_mr) (rw (k, slot_for))

    found-Linked :
        (cached : CachedRegion)
        → IsReader lib c
        → find_group group entry ≡ some cached
        → Linked c.provider.sessions c.slots cached.group
    found-Linked cached h e =
        find_group-All (λ x. Linked c.provider.sessions c.slots x.group) group entry
          (get-AllCached (λ x. Linked c.provider.sessions c.slots x.group) (md.name, md.id)
            c.provider.regions h.cached)
          e

    pub get_remote_mr_same :
        IsReader lib c → (get_remote_mr md group c.provider c.slots).1 ≡ c.slots
    get_remote_mr_same h = elim (Option-cases (find_group group entry)) [
      | inl e ↦ ap (λ (p : Option RemoteMemoryRegion × Slots). p.1) (get_remote_mr_unknown e)
      | inr (cached, e) ↦
          let l = found-Linked cached h e in
          ap (λ (p : Option RemoteMemoryRegion × Slots). p.1)
            (get_remote_mr_found cached l.session e l.known)
    ]

    pub get_remote_mr-Uses :
        {region : RemoteMemoryRegion} {slots : Slots}
        → IsReader lib c
        → get_remote_mr md group c.provider c.slots ≡ (some region, slots)
        → Uses c group region
    get_remote_mr-Uses {region = region} {slots = slots} h q =
        elim (Option-cases (find_group group entry)) [
          | inl e ↦ absurd (cc (sym (get_remote_mr_unknown e) ∙ q))
          | inr (cached, e) ↦
              let l = found-Linked cached h e in
              let both : ◌≡◌ {A = Option RemoteMemoryRegion × Slots}
                  (some (region_at l.session.connection cached), c.slots) (some region, slots) =
                sym (get_remote_mr_found cached l.session e l.known) ∙ q in
              let this : region_at l.session.connection cached ≡ region = cc in
              subst (λ (x : RemoteMemoryRegion). Uses c group x) this
                (record {
                  session = l.session;
                  known = l.known;
                  cell = refl;
                  conn = l.connected.conn;
                  ready = get_ready c.slots l.session.connection l.connected.cell;
                  asked = λ g a.
                      group-find_group g entry
                        (subst (λ (o : Option ℕ). find_group o entry ≡ some cached) a e);
                  own = λ g other k same. h.apart g cached.group other l.session k l.known same;
                })
        ]
