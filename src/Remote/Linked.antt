-- ===== src/Remote/Linked.antt =====
-- What holds of a reader at any time: each group's session has a cell of its own, a session with an
-- open channel has its connection, and so has every group of a cached region.
use rdmalib.Base.{
  ℕ, ◌<◌, ◌≡◌, inl, inr, refl, sym, ap, ◌∙◌, Option, some, List, length, get_elem?, subst,
}
use rdmalib.Base.Map.{
  Map, get, insert, nat_key, pair_key, get-insert_self, get-insert_ne, get-insert_cases, key-cases,
}
use rdmalib.Meta.Message.{Str}
use rdmalib.Meta.Frame.{Channel}
use rdmalib.Rdma.OneSided.{Connection}
use rdmalib.Remote.Region.{Slots}
use rdmalib.Remote.Client.{CachedRegion, GroupSession, RemoteMemoryProvider}
use rdmalib.Remote.Caches.{AllCached, AllCached-imp}

pub record Filled (slots : Slots) (slot : ℕ) : Type 0 where
  pub conn : Connection
  pub cell : get_elem? slots slot ≡ some (some conn)

-- The group has a session, with its connection.
pub record Linked (sessions : Map ℕ GroupSession) (slots : Slots) (group : ℕ) : Type 0 where
  pub session : GroupSession
  pub known : get group sessions ≡ some session
  pub connected : Filled slots session.connection

pub record IsLinked (p : RemoteMemoryProvider) (slots : Slots) : Type 0 where
  pub inside :
      (group : ℕ) (session : GroupSession)
      → get group p.sessions ≡ some session
      → session.connection < length slots
  pub apart :
      (group group' : ℕ) (session session' : GroupSession)
      → get group p.sessions ≡ some session
      → get group' p.sessions ≡ some session'
      → session.connection ≡ session'.connection
      → group ≡ group'
  pub opened :
      (group : ℕ) (session : GroupSession) (channel : Channel)
      → get group p.sessions ≡ some session
      → session.channel ≡ some channel
      → Filled slots session.connection
  pub cached : AllCached (λ c. Linked p.sessions slots c.group) p.regions

-- The session stays with its cell.
pub record SameCell (sessions : Map ℕ GroupSession) (group : ℕ) (old : GroupSession) : Type 0 where
  pub session : GroupSession
  pub known : get group sessions ≡ some session
  pub cell : session.connection ≡ old.connection

-- Sessions stay with their cells, and cells stay filled.
pub record Extends (a : Map ℕ GroupSession) (xs : Slots) (b : Map ℕ GroupSession) (ys : Slots)
    : Type 0 where
  pub sessions :
      (group : ℕ) (session : GroupSession) → get group a ≡ some session → SameCell b group session
  pub cells : (slot : ℕ) → Filled xs slot → Filled ys slot

pub Extends-refl : (a : Map ℕ GroupSession) (xs : Slots) → Extends a xs a xs
Extends-refl a xs = record {
  sessions = λ group session e. record { session = session; known = e; cell = refl };
  cells = λ slot f. f;
}

pub Extends-trans :
    {a b c : Map ℕ GroupSession} {xs ys zs : Slots}
    → Extends a xs b ys
    → Extends b ys c zs
    → Extends a xs c zs
Extends-trans f g = record {
  sessions = λ group session e.
      let first = f.sessions group session e in
      let second = g.sessions group first.session first.known in
      record { session = second.session; known = second.known; cell = second.cell ∙ first.cell };
  cells = λ slot h. g.cells slot (f.cells slot h);
}

module _ {a : Map ℕ GroupSession} {xs : Slots} {b : Map ℕ GroupSession} {ys : Slots}
    (f : Extends a xs b ys) where
  pub Linked-Extends : (group : ℕ) → Linked a xs group → Linked b ys group
  Linked-Extends group l =
      let kept = f.sessions group l.session l.known in
      record {
        session = kept.session;
        known = kept.known;
        connected = subst (Filled ys) (sym kept.cell) (f.cells l.session.connection l.connected);
      }

  pub cached-Extends :
      (regions : Map (Str × ℕ) (List CachedRegion))
      → AllCached (λ c. Linked a xs c.group) regions
      → AllCached (λ c. Linked b ys c.group) regions
  cached-Extends regions h = AllCached-imp (λ c l. Linked-Extends c.group l) regions h

-- A session whose channel changes. An open channel wants the connection.
module _ (p : RemoteMemoryProvider) (slots : Slots) (group : ℕ) (session : GroupSession)
    (channel : Option Channel) (known : get group p.sessions ≡ some session) where
  abbrev changed : RemoteMemoryProvider
  changed = record p { sessions = insert group (record session { channel = channel }) p.sessions }

  pub changed-Extends : Extends p.sessions slots changed.sessions slots
  changed-Extends = record {
    sessions = λ g s e. elim (key-cases group g) [
      | inl same ↦
          let this : ◌≡◌ {A = Option GroupSession} (some session) (some s) =
            sym known ∙ ap (λ k. get k p.sessions) same ∙ e in
          let equal : session ≡ s = cc in
          record {
            session = record session { channel = channel };
            known =
                ap (λ k. get k changed.sessions) (sym same) ∙ get-insert_self group _ p.sessions;
            cell = ap (λ (x : GroupSession). x.connection) equal;
          }
      | inr other ↦ record {
        session = s;
        known = get-insert_ne group g _ p.sessions other ∙ e;
        cell = refl;
      }
    ];
    cells = λ slot f. f;
  }

  -- What a look-up finds afterwards has the cell of what one found before.
  before : (g : ℕ) (s : GroupSession) → get g changed.sessions ≡ some s → SameCell p.sessions g s
  before g s e =
      elim (get-insert_cases group g (record session { channel = channel }) p.sessions e) [
        | inl (same, this) ↦ record {
          session = session;
          known = ap (λ k. get k p.sessions) (sym same) ∙ known;
          cell = ap (λ (x : GroupSession). x.connection) this;
        }
        | inr (other, old) ↦ record { session = s; known = old; cell = refl }
      ]

  pub changed-IsLinked :
      IsLinked p slots
      → ((c : Channel) → channel ≡ some c → Filled slots session.connection)
      → IsLinked changed slots
  changed-IsLinked h filled = record {
    inside = λ g s e.
        let old = before g s e in
        subst (λ i. i < length slots) old.cell (h.inside g old.session old.known);
    apart = λ g g' s s' e e' same.
        let old = before g s e in
        let old' = before g' s' e' in
        h.apart g g' old.session old'.session old.known old'.known
          (old.cell ∙ same ∙ sym old'.cell);
    opened = λ g s c e has.
        elim (get-insert_cases group g (record session { channel = channel }) p.sessions e) [
          | inl (same, this) ↦
              subst (λ (x : GroupSession). Filled slots x.connection) this
                (filled c (ap (λ (x : GroupSession). x.channel) this ∙ has))
          | inr (other, old) ↦ h.opened g s c old has
        ];
    cached = cached-Extends changed-Extends p.regions h.cached;
  }
