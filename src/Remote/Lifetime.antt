-- ===== src/Remote/Lifetime.antt =====
-- A reader over its whole life: updates, look-ups and transfers in any order.
use rdmalib.Base.{ℕ, ◌≡◌, sym, ap, ◌∙◌, Option, some, List, [], subst}
use rdmalib.Base.Io.{IoResult}
use rdmalib.Base.Map.{Map, insert, nat_key, pair_key, list_key, get-insert_self}
use rdmalib.Base.Map as Map
use rdmalib.Meta.Stream.{Stream}
use rdmalib.Rdma.Calls.{Library, Host}
use rdmalib.Rdma.Connect.{SocketAddr}
use rdmalib.Remote.Region.{Slots, RemoteMemoryRegion, Transfer, Reader, transfer}
use rdmalib.Remote.Client.{RegionMetadata, new_provider, get_remote_mr}
use rdmalib.Remote.Session.{Client, update_group}
use rdmalib.Remote.Growing.{IsReader, Grown, unmoved, Grown-trans, update_group-Grown}
use rdmalib.Remote.Handed.{
  on, get-Filled, get_ready, transfer-Grown, Uses, get_remote_mr_same, get_remote_mr-Uses,
}

module _ (lib : Library) where
  -- A step of the application: an update, a look-up, or a transfer that ends.
  pub data Step (c : Client lib) : Client lib → Type 0 where
    updates :
        (group : ℕ) (dialed : IoResult Stream) (addrs : IoResult (List SocketAddr))
        → Step c (update_group lib group dialed addrs c).1
    looks_up :
        (md : RegionMetadata) (group : Option ℕ)
        → Step c (record c { slots = (get_remote_mr md group c.provider c.slots).1 })
    transfers :
        (fuel opcode : ℕ) (region : RemoteMemoryRegion) (plan : IoResult Transfer)
        {r : IoResult (Unit {0})} {s : Reader lib}
        → transfer lib fuel opcode region plan (record { slots = c.slots; host = c.host })
          ≡ some (r, s)
        → Step c (record c { slots = s.slots; host = s.host })

  pub data Reach (c : Client lib) : Client lib → Type 0 where
    here : Reach c c
    next : {d e : Client lib} → Reach c d → Step d e → Reach c e

  Step-Grown : {c d : Client lib} → Step c d → IsReader lib c → Grown lib c d
  Step-Grown {c = c} (updates group dialed addrs) h = update_group-Grown lib group dialed addrs c h
  Step-Grown {c = c} (looks_up md group) h =
      subst (λ (slots : Slots). Grown lib c (record c { slots = slots }))
        (sym (get_remote_mr_same lib md group c h)) (unmoved lib c h)
  Step-Grown {c = c} (transfers fuel opcode region plan e) h =
      transfer-Grown lib fuel opcode region plan c e h

  Reach-Grown : {c d : Client lib} → Reach c d → IsReader lib c → Grown lib c d
  Reach-Grown {c = c} here h = unmoved lib c h
  Reach-Grown (next run step) h =
      let first = Reach-Grown run h in Grown-trans lib first (Step-Grown step first.linked)

  -- A reader that has just been made.
  abbrev pub started : Host lib.World → Client lib
  started h = record { provider = new_provider; slots = []; host = h }

  started-IsReader : (h : Host lib.World) → IsReader lib (started h)
  unfolding Map.get
  started-IsReader h = record {
    inside = λ g s e. cc;
    apart = λ g g' s s' e e' same. cc;
    opened = λ g s c e has. cc;
    cached = tt;
  }

  still_used :
      (c d : Client lib) (group : Option ℕ) (region : RemoteMemoryRegion)
      → Grown lib c d
      → Uses lib c group region
      → Uses lib d group region
  still_used c d group region f u =
      let kept = f.extends.sessions region.group u.session u.known in
      let filled =
        f.extends.cells region.connection (get-Filled lib c.slots region.connection u.ready) in
      record {
        session = kept.session;
        known = kept.known;
        cell = u.cell ∙ sym kept.cell;
        conn = filled.conn;
        ready = get_ready lib d.slots region.connection filled.cell;
        asked = u.asked;
        own = λ g other k same.
            f.linked.apart g region.group other kept.session k kept.known
              (same ∙ u.cell ∙ sym kept.cell);
      }

  -- A new reader comes to a state by updates that succeed or fail, look-ups and transfers that end, in
  -- any order, and in that state looks a region up and is handed one; it then goes on by such steps.
  -- The look-up makes no new cell. In whatever state the reader comes to, the region is of the group
  -- that was asked for, if one was; that group has a session, the region reads through that session's
  -- cell, which is no other group's, and the cell holds a connection.
  pub get_remote_mr-connected :
      (h : Host lib.World) (c d : Client lib) (md : RegionMetadata) (group : Option ℕ)
      {region : RemoteMemoryRegion} {slots : Slots}
      → Reach (started h) c
      → get_remote_mr md group c.provider c.slots ≡ (some region, slots)
      → Reach c d
      → (slots ≡ c.slots) × Uses lib d group region
  get_remote_mr-connected h c d md group {region = region} run e on =
      let grown = Reach-Grown run (started-IsReader h) in
      (
        sym (ap (λ (p : Option RemoteMemoryRegion × Slots). p.1) e)
            ∙ get_remote_mr_same lib md group c grown.linked,
        still_used c d group region (Reach-Grown on grown.linked)
            (get_remote_mr-Uses lib md group c grown.linked e),
      )
