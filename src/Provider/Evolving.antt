-- ===== src/Provider/Evolving.antt =====
-- What serving readers changes in the shared state: groups gain connections and tuples are added.
-- Nothing that a reader has been told of goes away.
use rdmalib.Base.{ℕ, ◌≡◌, inl, inr, refl, sym, ap, ◌∙◌, some, Bool, true, false, List, [], ◌∷◌}
use rdmalib.Base.Io.{IoResult, ok, err, IoResult-cases}
use rdmalib.Base.Map.{
  Map, get, insert, nat_key, pair_key, get-insert_self, get-insert_ne, key-cases,
}
use rdmalib.Meta.Message.{
  Message, RegionDesc, TupleDesc, hello, welcome, want_group, update, metadata, tuples,
}
use rdmalib.Meta.Stream.{Stream}
use rdmalib.Meta.Frame.{Channel, open_channel, receive}
use rdmalib.Rdma.Calls.{Library, Host}
use rdmalib.Rdma.Domain.{MemoryRegion, ProtectionDomain}
use rdmalib.Rdma.OneSided.{Connection}
use rdmalib.Rdma.Connect.{Listener}
use rdmalib.Provider.State.{
  RegionInfo, GroupEntry, Shared, Sharing, tuple_of, describe, catalog_and_tuples,
}
use rdmalib.Provider.Tuples.{known, fresh, failed, absent, tuple_of-Outcome}
use rdmalib.Provider.Sharing.{IsShared, tuple_of-IsShared, tuple_of_catalog, tuple_of_groups}
use rdmalib.Provider.Service.{
  greet, entry_with, send_exchange, put_group, join, accept_reader, serve_joined, serve_greeted,
  serve_channel, handshake, answer_update, next_round,
}

-- The group's entry stays, with the same domain.
pub record SameDomain (groups : Map ℕ GroupEntry) (group : ℕ) (old : GroupEntry) : Type 0 where
  pub entry : GroupEntry
  pub joined : get group groups ≡ some entry
  pub pd : entry.pd ≡ old.pd

-- From `a` to `b` the catalog is the same, and every group and every tuple of `a` stays.
pub record Evolves (a b : Shared) : Type 0 where
  pub catalog : b.catalog ≡ a.catalog
  pub groups :
      (group : ℕ) (entry : GroupEntry)
      → get group a.groups ≡ some entry
      → SameDomain b.groups group entry
  pub tuples :
      (key : ℕ × ℕ) (mr : MemoryRegion) → get key a.tuples ≡ some mr → get key b.tuples ≡ some mr
  pub shared : IsShared a → IsShared b

pub stays : (a : Shared) → Evolves a a
stays a = record {
  catalog = refl;
  groups = λ group entry e. record { entry = entry; joined = e; pd = refl };
  tuples = λ key mr e. e;
  shared = λ h. h;
}

Evolves-trans : {a b c : Shared} → Evolves a b → Evolves b c → Evolves a c
Evolves-trans f g = record {
  catalog = g.catalog ∙ f.catalog;
  groups = λ group entry e.
      let first = f.groups group entry e in
      let second = g.groups group first.entry first.joined in
      record { entry = second.entry; joined = second.joined; pd = second.pd ∙ first.pd };
  tuples = λ key mr e. g.tuples key mr (f.tuples key mr e);
  shared = λ h. g.shared (f.shared h);
}

module _ (lib : Library) where
  tuple_of_keeps :
      (id group : ℕ) (s : Sharing lib) (key : ℕ × ℕ) (mr : MemoryRegion)
      → get key s.shared.tuples ≡ some mr
      → get key (tuple_of lib id group s).1.shared.tuples ≡ some mr
  tuple_of_keeps id group s key mr e = elim (tuple_of-Outcome lib id group s) [
    | known m k r ↦ ap (λ (p : IoResult _ × Sharing lib). get key p.1.shared.tuples) r ∙ e
    | fresh entry info m h k g c reg r ↦ elim (key-cases {K = ℕ × ℕ} (id, group) key) [
      | inl same ↦ absurd (cc (sym k ∙ ap (λ (q : ℕ × ℕ). get q s.shared.tuples) same ∙ e))
      | inr apart ↦
          ap (λ (p : IoResult _ × Sharing lib). get key p.1.shared.tuples) r
          ∙ get-insert_ne (id, group) key m s.shared.tuples apart
          ∙ e
    ]
    | failed x h k r ↦ ap (λ (p : IoResult _ × Sharing lib). get key p.1.shared.tuples) r ∙ e
    | absent k r ↦ ap (λ (p : IoResult _ × Sharing lib). get key p.1.shared.tuples) r ∙ e
  ]

  pub tuple_of-Evolves :
      (id group : ℕ) (s : Sharing lib) → Evolves s.shared (tuple_of lib id group s).1.shared
  tuple_of-Evolves id group s = record {
    catalog = tuple_of_catalog lib id group s;
    groups = λ g entry e. record {
      entry = entry;
      joined = ap (get g) (tuple_of_groups lib id group s) ∙ e;
      pd = refl;
    };
    tuples = tuple_of_keeps id group s;
    shared = tuple_of-IsShared lib id group s;
  }

  describe-Evolves :
      (group : ℕ) (rest : List (ℕ × RegionInfo)) (regions : List RegionDesc)
      (descs : List TupleDesc) (s : Sharing lib)
      → Evolves s.shared (describe lib group rest regions descs s).1.shared
  unfolding describe
  describe-Evolves group [] regions descs s = stays s.shared
  describe-Evolves group ((id, info) ∷ rest) regions descs s =
      Evolves-trans (tuple_of-Evolves id group s)
        (describe-Evolves group rest _ _ (tuple_of lib id group s).1)

  catalog_and_tuples-Evolves :
      (group : ℕ) (s : Sharing lib) → Evolves s.shared (catalog_and_tuples lib group s).1.shared
  unfolding catalog_and_tuples
  catalog_and_tuples-Evolves group s = describe-Evolves group s.shared.catalog [] [] s

  -- A reader joins: its group's domain is that of the entry before, if there was one.
  entry_with_pd :
      (old : GroupEntry) (conn : Connection) {entry : GroupEntry}
      → entry_with (some old) conn ≡ ok entry
      → entry.pd ≡ old.pd
  unfolding entry_with
  entry_with_pd old conn e = cc

  insert_groups :
      (group : ℕ) (entry : GroupEntry) (a : Shared)
      → ((old : GroupEntry) → get group a.groups ≡ some old → entry.pd ≡ old.pd)
      → (g : ℕ) (old : GroupEntry) → get g a.groups ≡ some old
      → SameDomain (insert group entry a.groups) g old
  insert_groups group entry a same g old e = elim (key-cases group g) [
    | inl eq ↦ record {
      entry = entry;
      joined =
          ap (λ k. get k (insert group entry a.groups)) (sym eq)
          ∙ get-insert_self group entry a.groups;
      pd = same old (ap (λ k. get k a.groups) eq ∙ e);
    }
    | inr apart ↦ record {
      entry = old;
      joined = get-insert_ne group g entry a.groups apart ∙ e;
      pd = refl;
    }
  ]

  put_group-Evolves :
      (group : ℕ) (r : IoResult GroupEntry) (s : Sharing lib)
      → ((entry old : GroupEntry)
          → r ≡ ok entry
          → get group s.shared.groups ≡ some old
          → entry.pd ≡ old.pd)
      → Evolves s.shared (put_group lib group r s).1.shared
  unfolding put_group
  put_group-Evolves group (err e) s same = stays s.shared
  put_group-Evolves group (ok entry) s same =
      let kept = insert_groups group entry s.shared (λ old e. same entry old refl e) in
      record {
        catalog = refl;
        groups = kept;
        tuples = λ key mr e. e;
        shared = λ h. record {
          at = λ id g mr e.
              let old = h.at id g mr e in
              let new = kept g old.entry old.joined in
              record {
                info = old.info;
                entry = new.entry;
                region = old.region;
                joined = new.joined;
                addr = old.addr;
                size = old.size;
                pd = old.pd ∙ ap (λ (d : ProtectionDomain). d.pd) (sym new.pd);
              };
        };
      }

  pub join-Evolves :
      (group : ℕ) (r : IoResult Connection × Host lib.World) (s : Sharing lib)
      → Evolves s.shared (join lib group r s).1.shared
  unfolding join
  join-Evolves group (err e, host) s = stays s.shared
  join-Evolves group (ok conn, host) s =
      put_group-Evolves group _ (record s { host = host })
        (λ entry old e has. entry_with_pd old conn (ap (λ o. entry_with o conn) (sym has) ∙ e))

  pub accept_reader-Evolves :
      (l : Listener) (group : ℕ) (s : Sharing lib)
      → Evolves s.shared (accept_reader lib l group s).1.shared
  unfolding accept_reader
  accept_reader-Evolves l group s = join-Evolves group _ s

  serve_joined-Evolves :
      (group : ℕ) (channel : Channel) (r : IoResult (Unit {0}) × Sharing lib)
      → Evolves r.1.shared (serve_joined lib group channel r).1.shared
  unfolding serve_joined
  serve_joined-Evolves group channel (err e, s) = stays s.shared
  serve_joined-Evolves group channel (ok t, s) =
      elim (IoResult-cases (send_exchange (catalog_and_tuples lib group s).0 channel).0) [
        | inl (u, e) ↦ rw (e, serve_joined) (catalog_and_tuples-Evolves group s)
        | inr (x, e) ↦ rw (e, serve_joined) (catalog_and_tuples-Evolves group s)
      ]

  pub handshake-Evolves :
      (l : Listener) (stream : Stream) (s : Sharing lib)
      → Evolves s.shared (handshake lib l stream s).1.shared
  unfolding handshake
  handshake-Evolves l stream s = at_channel (open_channel stream).0
    where
      at_greeting : (r : IoResult ℕ × Channel) → Evolves s.shared (serve_greeted lib l r s).1.shared
      at_greeting (err e, channel) = unfold serve_greeted in stays s.shared
      at_greeting (ok group, channel) =
          unfold serve_greeted in
          Evolves-trans (accept_reader-Evolves l group s)
            (serve_joined-Evolves group channel (accept_reader lib l group s))

      at_channel : (r : IoResult Channel) → Evolves s.shared (serve_channel lib l r s).1.shared
      at_channel (err e) = unfold serve_channel in stays s.shared
      at_channel (ok channel) = unfold serve_channel in at_greeting (greet channel)

  -- What a round of a session makes of the state: an exchange, or nothing.
  pub next_round_cases :
      (P : Sharing lib → Type 0) (group : ℕ) (shutdown : Bool) (channel : Channel) (s : Sharing lib)
      → P s
      → P (catalog_and_tuples lib group s).1
      → P (next_round lib group shutdown channel s).2
  unfolding next_round answer_update
  next_round_cases P group true channel s same served = same
  next_round_cases P group false channel s same served = answered (receive channel)
    where
      answered : (p : IoResult Message × Channel) → P (answer_update lib group p s).2
      answered (err e, c) = same
      answered (ok update, c) =
          elim (IoResult-cases (send_exchange (catalog_and_tuples lib group s).0 c).0) [
            | inl (u, e) ↦ rw (e, answer_update) served
            | inr (x, e) ↦ rw (e, answer_update) served
          ]
      answered (ok (hello v), c) = same
      answered (ok (welcome v), c) = same
      answered (ok (want_group g), c) = same
      answered (ok (metadata rs), c) = same
      answered (ok (tuples g ts), c) = same

  pub next_round-Evolves :
      (group : ℕ) (shutdown : Bool) (channel : Channel) (s : Sharing lib)
      → Evolves s.shared (next_round lib group shutdown channel s).2.shared
  next_round-Evolves group shutdown channel s =
      next_round_cases (λ t. Evolves s.shared t.shared) group shutdown channel s (stays s.shared)
        (catalog_and_tuples-Evolves group s)
