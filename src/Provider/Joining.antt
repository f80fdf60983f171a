-- ===== src/Provider/Joining.antt =====
-- Readers that join: every connection of a group is in the group's domain.
use rdmalib.Base.{
  subst, ℕ, ◌≡◌, inl, inr, refl, sym, ap, ◌∙◌, Option, none, some, [], ◌∷◌, ◌++◌, All, All-append,
}
use rdmalib.Base.Io.{IoResult, ok, err, IoResult-cases}
use rdmalib.Base.Map.{Map, get, insert, nat_key, get-insert_self, get-insert_ne, key-cases}
use rdmalib.Meta.Stream.{Stream}
use rdmalib.Meta.Frame.{Channel, open_channel}
use rdmalib.Rdma.Calls.{Library, Host}
use rdmalib.Rdma.Domain.{ProtectionDomain}
use rdmalib.Rdma.OneSided.{Connection, expect}
use rdmalib.Rdma.Connect.{Listener, accept_impl}
use rdmalib.Rdma.Establishing.{Joins, accept_impl-Joins}
use rdmalib.Provider.State.{GroupEntry, Sharing, catalog_and_tuples}
use rdmalib.Provider.Catalog.{catalog_and_tuples_groups}
use rdmalib.Provider.Service.{
  greet, group_pd, entry_with, send_exchange, put_group, join, accept_reader, serve_joined,
  serve_greeted, serve_channel, handshake,
}

abbrev pub LivesIn : ProtectionDomain → Connection → Type 0
LivesIn pd conn = conn.pd ≡ some pd

-- Every connection of every group is in the group's domain, so that the group's keys work for it.
pub record IsGrouped (groups : Map ℕ GroupEntry) : Type 0 where
  pub at :
      (group : ℕ) (entry : GroupEntry)
      → get group groups ≡ some entry
      → All (LivesIn entry.pd) entry.connections

insert-IsGrouped :
    (group : ℕ) (entry : GroupEntry) (groups : Map ℕ GroupEntry)
    → All (LivesIn entry.pd) entry.connections
    → IsGrouped groups
    → IsGrouped (insert group entry groups)
insert-IsGrouped group entry groups lives h = record {
  at = λ g e found. elim (key-cases group g) [
    | inl same ↦
        let this : ◌≡◌ {A = Option GroupEntry} (some entry) (some e) =
          sym (get-insert_self group entry groups)
          ∙ ap (λ k. get k (insert group entry groups)) same
          ∙ found in
        let equal : entry ≡ e = cc in
        subst (λ (x : GroupEntry). All (LivesIn x.pd) x.connections) equal lives
    | inr apart ↦ h.at g e (sym (get-insert_ne group g entry groups apart) ∙ found)
  ];
}

pub entry_with_new :
    (conn : Connection) {pd : ProtectionDomain}
    → conn.pd ≡ some pd
    → entry_with none conn ≡ ok (record { pd = pd; connections = conn ∷ [] })
unfolding entry_with expect
entry_with_new conn joins =
    ap
      (λ (o : Option ProtectionDomain). elim (expect o) as (λ x. IoResult GroupEntry) [
        | ok pd ↦ ok (record { pd = pd; connections = conn ∷ [] })
        | err e ↦ err e
      ])
      joins

-- The entry that a joined connection makes or extends has it in its domain.
entry_with-LivesIn :
    (old : Option GroupEntry) (conn : Connection) {entry : GroupEntry}
    → ((e : GroupEntry) → old ≡ some e → All (LivesIn e.pd) e.connections)
    → Joins (group_pd old) conn.pd
    → entry_with old conn ≡ ok entry
    → All (LivesIn entry.pd) entry.connections
unfolding entry_with group_pd expect
entry_with-LivesIn (some old) conn {entry = entry} h joins e =
    let equal : (record old { connections = old.connections ++ (conn ∷ []) }) ≡ entry = cc in
    subst (λ (x : GroupEntry). All (LivesIn x.pd) x.connections) equal
      (All-append (LivesIn old.pd) old.connections (conn ∷ []) (h old refl) (joins, tt))
entry_with-LivesIn none conn {entry = entry} h (pd, joins) e =
    let first : GroupEntry = record { pd = pd; connections = conn ∷ [] } in
    let made : ◌≡◌ {A = IoResult GroupEntry} (ok first) (ok entry) =
      sym (entry_with_new conn joins) ∙ e in
    let equal : first ≡ entry = cc in
    subst (λ (x : GroupEntry). All (LivesIn x.pd) x.connections) equal (joins, tt)

module _ (lib : Library) where
  put_group-IsGrouped :
      (group : ℕ) (r : IoResult GroupEntry) (s : Sharing lib)
      → IsGrouped s.shared.groups
      → ((entry : GroupEntry) → r ≡ ok entry → All (LivesIn entry.pd) entry.connections)
      → IsGrouped (put_group lib group r s).1.shared.groups
  unfolding put_group
  put_group-IsGrouped group (err e) s h lives = h
  put_group-IsGrouped group (ok entry) s h lives =
      insert-IsGrouped group entry s.shared.groups (lives entry refl) h

  pub join-IsGrouped :
      (group : ℕ) (r : IoResult Connection × Host lib.World) (s : Sharing lib)
      → IsGrouped s.shared.groups
      → ((conn : Connection) → r.0 ≡ ok conn → Joins (group_pd (get group s.shared.groups)) conn.pd)
      → IsGrouped (join lib group r s).1.shared.groups
  unfolding join
  join-IsGrouped group (err e, host) s h joins = h
  join-IsGrouped group (ok conn, host) s h joins =
      put_group-IsGrouped group _ (record s { host = host }) h
        (λ entry e.
          entry_with-LivesIn (get group s.shared.groups) conn (λ old has. h.at group old has)
            (joins conn refl) e)

  accept_reader-IsGrouped :
      (l : Listener) (group : ℕ) (s : Sharing lib)
      → IsGrouped s.shared.groups
      → IsGrouped (accept_reader lib l group s).1.shared.groups
  unfolding accept_reader
  accept_reader-IsGrouped l group s h =
      join-IsGrouped group (accept_impl lib l (group_pd (get group s.shared.groups)) s.host) s h
        (λ conn e.
          accept_impl-Joins lib l (group_pd (get group s.shared.groups)) s.host
            (ap (λ r. (r, (accept_impl lib l (group_pd (get group s.shared.groups)) s.host).1)) e))

  serve_joined-IsGrouped :
      (group : ℕ) (channel : Channel) (r : IoResult (Unit {0}) × Sharing lib)
      → IsGrouped r.1.shared.groups
      → IsGrouped (serve_joined lib group channel r).1.shared.groups
  unfolding serve_joined
  serve_joined-IsGrouped group channel (err e, s) h = h
  serve_joined-IsGrouped group channel (ok t, s) h =
      let served : IsGrouped (catalog_and_tuples lib group s).1.shared.groups =
        subst IsGrouped (sym (catalog_and_tuples_groups lib group s)) h in
      elim (IoResult-cases (send_exchange (catalog_and_tuples lib group s).0 channel).0) [
        | inl (u, e) ↦ rw (e, serve_joined) served
        | inr (x, e) ↦ rw (e, serve_joined) served
      ]

  -- If every connection of every group is in the group's domain, then this still holds after a
  -- handshake, whether it succeeds or fails.
  pub handshake-IsGrouped :
      (l : Listener) (stream : Stream) (s : Sharing lib)
      → IsGrouped s.shared.groups
      → IsGrouped (handshake lib l stream s).1.shared.groups
  unfolding handshake
  handshake-IsGrouped l stream s h = at_channel (open_channel stream).0
    where
      at_greeting : (r : IoResult ℕ × Channel) → IsGrouped (serve_greeted lib l r s).1.shared.groups
      at_greeting (err e, channel) = unfold serve_greeted in h
      at_greeting (ok group, channel) =
          unfold serve_greeted in
          serve_joined-IsGrouped group channel (accept_reader lib l group s)
            (accept_reader-IsGrouped l group s h)

      at_channel : (r : IoResult Channel) → IsGrouped (serve_channel lib l r s).1.shared.groups
      at_channel (err e) = unfold serve_channel in h
      at_channel (ok channel) = unfold serve_channel in at_greeting (greet channel)
