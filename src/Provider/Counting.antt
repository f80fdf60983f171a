-- ===== src/Provider/Counting.antt =====
-- The provider's drop with the handles of its domains counted: the Booleans of `drop_groups` are what
-- the counts say, and no handle is left.
use rdmalib.Base.{
  ℕ, suc, ◌-◌, ◌≡◌, refl, sym, ap, ◌∙◌, some, List, [], ◌∷◌, All, length, subst, arith,
}
use rdmalib.Base.Map.{Map, nat_key, get-insert_self, get-insert_ne}
use rdmalib.Rdma.Calls.{Library}
use rdmalib.Rdma.Domain.{ProtectionDomain}
use rdmalib.Rdma.OneSided.{Connection}
use rdmalib.Rdma.Connect.{release, drop_connection}
use rdmalib.Rdma.Handles.{
  Counts, count, count_or_zero, forget_handle, is_sole, Counted, drop_handle, drop_counted,
}
use rdmalib.Provider.State.{GroupEntry}
use rdmalib.Provider.Joining.{LivesIn}
use rdmalib.Provider.Serving.{is_last, drop_connections, drop_groups}

module _ (lib : Library) where
  unfoldable pub drop_connections_counted : List Connection → Counted lib → Counted lib
  drop_connections_counted [] s = s
  drop_connections_counted (c ∷ rest) s = drop_connections_counted rest (drop_counted lib c c.pd s)

  -- A `GroupEntry`: its handle, then its connections.
  unfoldable pub drop_groups_counted : Map ℕ GroupEntry → Counted lib → Counted lib
  drop_groups_counted [] s = s
  drop_groups_counted ((group, entry) ∷ rest) s =
      drop_groups_counted rest
        (drop_connections_counted entry.connections (drop_handle lib entry.pd s))

pub forget_here :
    (pd : ProtectionDomain) (counts : Counts)
    → count pd.pd (forget_handle pd counts) ≡ count pd.pd counts - 1
unfolding count forget_handle
forget_here pd counts = ap count_or_zero (get-insert_self pd.pd _ counts)

pub forget_there :
    (pd : ProtectionDomain) (counts : Counts) (ptr : ℕ)
    → ¬ (pd.pd ≡ ptr)
    → count ptr (forget_handle pd counts) ≡ count ptr counts
unfolding count forget_handle
forget_there pd counts ptr apart = ap count_or_zero (get-insert_ne pd.pd ptr _ counts apart)

-- All handles of the domain are gone, and the other domains' are as they were.
record Gone (ptr : ℕ) (before after : Counts) : Type 0 where
  none_left : count ptr after ≡ 0
  others : (q : ℕ) → ¬ (ptr ≡ q) → count q after ≡ count q before

module _ (lib : Library) (pd : ProtectionDomain) where
  -- With as many handles as there are connections, the last connection's is the last.
  is_sole-length :
      (counts : Counts) (rest : List Connection)
      → count pd.pd counts ≡ suc (length rest)
      → is_sole pd counts ≡ is_last lib rest
  unfolding is_sole
  is_sole-length counts [] e = rw e refl
  is_sole-length counts (x ∷ rest) e = ground arith

  connections_counted :
      (conns : List Connection) (s : Counted lib)
      → All (LivesIn pd) conns
      → count pd.pd s.counts ≡ length conns
      → ((drop_connections_counted lib conns s).host ≡ drop_connections lib conns s.host)
        × Gone pd.pd s.counts (drop_connections_counted lib conns s).counts
  unfolding drop_connections_counted drop_connections drop_counted
  connections_counted [] s h e = (refl, record { none_left = e; others = λ q apart. refl })
  connections_counted (c ∷ rest) s (lives, h) e =
      let ih =
        connections_counted rest (drop_counted lib c (some pd) s) h
          (omega (arith, forget_here pd s.counts, e)) in
      subst
        (λ o.
          ((drop_connections_counted lib rest (drop_counted lib c o s)).host
            ≡ drop_connections lib rest (drop_connection lib (is_last lib rest) c s.host).1)
          × Gone pd.pd s.counts (drop_connections_counted lib rest (drop_counted lib c o s)).counts)
        (sym lives)
        (
          ih.0
              ∙ ap (λ last. drop_connections lib rest (drop_connection lib last c s.host).1)
                  (is_sole-length s.counts rest e),
          record {
            none_left = ih.1.none_left;
            others = λ q apart. ih.1.others q apart ∙ forget_there pd s.counts q apart;
          },
        )

-- Each group's domain has a handle of the entry and one of each connection, and is no other group's.
abbrev pub IsCounted : Map ℕ GroupEntry → Counts → Type 0
IsCounted [] counts = Unit
IsCounted ((group, entry) ∷ rest) counts =
    (count entry.pd.pd counts ≡ suc (length entry.connections))
    × All (LivesIn entry.pd) entry.connections
    × All (λ (e : ℕ × GroupEntry). ¬ (entry.pd.pd ≡ e.1.pd.pd)) rest
    × IsCounted rest counts

-- No handle of the groups' domains is left.
abbrev pub AllGone : Map ℕ GroupEntry → Counts → Type 0
AllGone groups counts = All (λ (e : ℕ × GroupEntry). count e.1.pd.pd counts ≡ 0) groups

pub IsCounted-apart :
    (ptr : ℕ) (groups : Map ℕ GroupEntry) (a b : Counts)
    → ((q : ℕ) → ¬ (ptr ≡ q) → count q b ≡ count q a)
    → All (λ (e : ℕ × GroupEntry). ¬ (ptr ≡ e.1.pd.pd)) groups
    → IsCounted groups a
    → IsCounted groups b
IsCounted-apart ptr [] a b same apart h = tt
IsCounted-apart ptr ((group, entry) ∷ rest) a b same (apart, aparts) (n, lives, own, h) =
    (same entry.pd.pd apart ∙ n, lives, own, IsCounted-apart ptr rest a b same aparts h)

module _ (lib : Library) where
  -- What one group's drop does.
  group_counted :
      (entry : GroupEntry) (s : Counted lib)
      → All (LivesIn entry.pd) entry.connections
      → count entry.pd.pd s.counts ≡ suc (length entry.connections)
      → ((drop_connections_counted lib entry.connections (drop_handle lib entry.pd s)).host
          ≡ drop_connections lib entry.connections
              (release lib (is_last lib entry.connections) entry.pd s.host).1)
        × Gone entry.pd.pd s.counts
            (drop_connections_counted lib entry.connections (drop_handle lib entry.pd s)).counts
  unfolding drop_handle
  group_counted entry s lives n =
      let (host, gone) =
        connections_counted lib entry.pd entry.connections (drop_handle lib entry.pd s) lives
          (omega (arith, forget_here entry.pd s.counts, n)) in
      (
        host
            ∙ ap
                (λ last.
                  drop_connections lib entry.connections (release lib last entry.pd s.host).1)
                (is_sole-length lib entry.pd s.counts entry.connections n),
        record {
          none_left = gone.none_left;
          others = λ q apart. gone.others q apart ∙ forget_there entry.pd s.counts q apart;
        },
      )

  groups_elsewhere :
      (groups : Map ℕ GroupEntry) (s : Counted lib) (ptr : ℕ)
      → All (λ (e : ℕ × GroupEntry). ¬ (ptr ≡ e.1.pd.pd)) groups
      → IsCounted groups s.counts
      → count ptr (drop_groups_counted lib groups s).counts ≡ count ptr s.counts
  unfolding drop_groups_counted
  groups_elsewhere [] s ptr apart h = refl
  groups_elsewhere ((group, entry) ∷ rest) s ptr (apart, aparts) (n, lives, own, h) =
      let dropped = drop_connections_counted lib entry.connections (drop_handle lib entry.pd s) in
      let gone = (group_counted entry s lives n).1 in
      groups_elsewhere rest dropped ptr aparts
        (IsCounted-apart entry.pd.pd rest s.counts dropped.counts gone.others own h)
      ∙ gone.others ptr (λ e. apart (sym e))

  -- If each group's domain has one handle for the entry and one for each connection, all of them in
  -- that domain, and no two groups share a domain, then the drop of the groups by the counts makes
  -- the calls that `drop_groups` does, whose Booleans say which handle is the last of a domain, and
  -- leaves no handle of the groups' domains.
  pub drop_groups_counted_lem :
      (groups : Map ℕ GroupEntry) (s : Counted lib)
      → IsCounted groups s.counts
      → ((drop_groups_counted lib groups s).host ≡ drop_groups lib groups s.host)
        × AllGone groups (drop_groups_counted lib groups s).counts
  unfolding drop_groups_counted drop_groups
  drop_groups_counted_lem [] s h = (refl, tt)
  drop_groups_counted_lem ((group, entry) ∷ rest) s (n, lives, own, h) =
      let dropped = drop_connections_counted lib entry.connections (drop_handle lib entry.pd s) in
      let (host, gone) = group_counted entry s lives n in
      let counted = IsCounted-apart entry.pd.pd rest s.counts dropped.counts gone.others own h in
      let (hosts, all_gone) = drop_groups_counted_lem rest dropped counted in
      (
        hosts ∙ ap (drop_groups lib rest) host,
        (groups_elsewhere rest dropped entry.pd.pd own counted ∙ gone.none_left, all_gone),
      )
