-- ===== src/Remote/Cells.antt =====
-- A reader's cells: one more with a new session, one that gets its connection, and an exchange's
-- regions.
use rdmalib.Base.{
  ℕ, ◌<◌, ◌≡◌, inl, inr, refl, sym, ap, ◌∙◌, none, some, List, [], ◌∷◌, ◌++◌, length, length-append,
  set, length-set, get_elem?-set, get_elem?-set_ne, get_elem?-append, subst, Bool-cases, ◌==◌,
  arith,
}
use rdmalib.Base.Map.{get, insert, nat_key, pair_key, get-insert_ne, get-insert_cases, key-cases}
use rdmalib.Meta.Message.{RegionDesc, TupleDesc, Message, metadata, tuples}
use rdmalib.Rdma.OneSided.{Connection}
use rdmalib.Remote.Region.{Slots}
use rdmalib.Remote.Client.{GroupSession, RemoteMemoryProvider, tuples_by_id, refilled, ingest}
use rdmalib.Remote.Caches.{ingest_regions-AllCached, retain_live-AllCached}
use rdmalib.Remote.Linked.{Filled, Linked, IsLinked, Extends, cached-Extends}

-- A session of a new group, with a cell of its own.
module _ (p : RemoteMemoryProvider) (slots : Slots) (group : ℕ)
    (unknown : get group p.sessions ≡ none) where
  abbrev pub new_session : GroupSession
  new_session = record { channel = none; connection = length slots }

  abbrev pub with_session : RemoteMemoryProvider
  with_session = record p { sessions = insert group new_session p.sessions }

  abbrev pub with_cell : Slots
  with_cell = slots ++ (none ∷ [])

  pub new-Extends : Extends p.sessions slots with_session.sessions with_cell
  new-Extends = record {
    sessions = λ g s e. elim (key-cases group g) [
      | inl same ↦ absurd (cc (sym unknown ∙ ap (λ k. get k p.sessions) same ∙ e))
      | inr other ↦ record {
        session = s;
        known = get-insert_ne group g _ p.sessions other ∙ e;
        cell = refl;
      }
    ];
    cells =
        λ slot f. record { conn = f.conn; cell = get_elem?-append slots (none ∷ []) slot f.cell };
  }

  pub new-IsLinked : IsLinked p slots → IsLinked with_session with_cell
  new-IsLinked h = record {
    inside = λ g s e. elim (get-insert_cases group g new_session p.sessions e) [
      | inl (same, this) ↦
          omega
            (arith, length-append slots (none ∷ []), ap (λ (x : GroupSession). x.connection) this)
      | inr (other, old) ↦ omega (arith, h.inside g s old, length-append slots (none ∷ []))
    ];
    apart = λ g g' s s' e e' same. elim (get-insert_cases group g new_session p.sessions e) [
      | inl (first, this) ↦ elim (get-insert_cases group g' new_session p.sessions e') [
        | inl (second, that) ↦ sym first ∙ second
        | inr (other, old) ↦
            absurd (
              omega (arith, h.inside g' s' old, same, ap (λ (x : GroupSession). x.connection) this))
      ]
      | inr (other, old) ↦ elim (get-insert_cases group g' new_session p.sessions e') [
        | inl (second, that) ↦
            absurd
              (omega (arith, h.inside g s old, same, ap (λ (x : GroupSession). x.connection) that))
        | inr (other', old') ↦ h.apart g g' s s' old old' same
      ]
    ];
    opened = λ g s c e has. elim (get-insert_cases group g new_session p.sessions e) [
      | inl (same, this) ↦ absurd (cc (ap (λ (x : GroupSession). x.channel) this ∙ has))
      | inr (other, old) ↦ new-Extends.cells s.connection (h.opened g s c old has)
    ];
    cached = cached-Extends new-Extends p.regions h.cached;
  }

-- A cell gets a connection.
module _ (p : RemoteMemoryProvider) (slots : Slots) (slot : ℕ) (conn : Connection)
    (inside : slot < length slots) where
  abbrev pub filling : Slots
  filling = set slots slot (some conn)

  pub filling-Filled : Filled filling slot
  filling-Filled = record { conn = conn; cell = get_elem?-set slots slot (some conn) inside }

  pub filling-Extends : Extends p.sessions slots p.sessions filling
  filling-Extends = record {
    sessions = λ g s e. record { session = s; known = e; cell = refl };
    cells = λ i f. elim (key-cases slot i) [
      | inl same ↦ subst (Filled filling) same filling-Filled
      | inr other ↦ record {
        conn = f.conn;
        cell = get_elem?-set_ne slots slot i (some conn) other ∙ f.cell;
      }
    ];
  }

  pub filling-IsLinked : IsLinked p slots → IsLinked p filling
  filling-IsLinked h = record {
    inside = λ g s e. omega (arith, h.inside g s e, length-set slots slot (some conn));
    apart = h.apart;
    opened = λ g s c e has. filling-Extends.cells s.connection (h.opened g s c e has);
    cached = cached-Extends filling-Extends p.regions h.cached;
  }

-- The exchange of a group whose session has its connection.
module _ (group : ℕ) (p : RemoteMemoryProvider) (slots : Slots) where
  refilled-IsLinked :
      (regions : List RegionDesc) (descs : List TupleDesc)
      → IsLinked p slots
      → Linked p.sessions slots group
      → IsLinked (refilled group regions descs p) slots
  refilled-IsLinked regions descs h l = record {
    inside = h.inside;
    apart = h.apart;
    opened = h.opened;
    cached =
        retain_live-AllCached (λ c. Linked p.sessions slots c.group) regions _
          (ingest_regions-AllCached (λ c. Linked p.sessions slots c.group) group (λ region tuple. l)
            (tuples_by_id [] descs) regions p.regions h.cached);
  }

  pub ingest-IsLinked :
      (exchange : Message × Message)
      → IsLinked p slots
      → Linked p.sessions slots group
      → IsLinked (ingest group exchange p).1 slots
  unfolding ingest
  ingest-IsLinked (metadata regions, tuples served descs) h l =
      elim (Bool-cases (served == group)) [
        | inl e ↦ rw e (refilled-IsLinked regions descs h l)
        | inr e ↦ rw e h
      ]
  ingest-IsLinked _ h l = h

  pub sessions-ingest :
      (exchange : Message × Message) → (ingest group exchange p).1.sessions ≡ p.sessions
  unfolding ingest
  sessions-ingest exchange = ground arith
