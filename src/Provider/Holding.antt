-- ===== src/Provider/Holding.antt =====
-- A join keeps the counts right: one handle for each entry, and one for each of its connections.
use rdmalib.Base.{
  ℕ, suc, ◌≡◌, inl, inr, refl, sym, ap, ◌∙◌, Option, none, some, Bool-cases, [], ◌∷◌, ◌++◌, All,
  All-append, length, length-append, ◌==◌, subst, arith,
}
use rdmalib.Base.Io.{IoResult, ok}
use rdmalib.Base.Map.{Map, get, insert, nat_key}
use rdmalib.Rdma.Domain.{ProtectionDomain}
use rdmalib.Rdma.OneSided.{Connection}
use rdmalib.Rdma.Handles.{Counts, count}
use rdmalib.Provider.State.{GroupEntry}
use rdmalib.Provider.Service.{group_pd, entry_with}
use rdmalib.Rdma.Establishing.{Joins}
use rdmalib.Provider.Joining.{LivesIn, entry_with_new}
use rdmalib.Provider.Counting.{IsCounted, IsCounted-apart}
use rdmalib.Provider.Held.{joined_handles, Changes, joined-Changes, created-Changes}

-- A property of the entries, through a look-up and an insertion.
get-All :
    (Q : GroupEntry → Type 0) (group : ℕ) (m : Map ℕ GroupEntry) {e : GroupEntry}
    → All (λ (x : ℕ × GroupEntry). Q x.1) m
    → get group m ≡ some e
    → Q e
unfolding get
get-All Q group [] h found = cc
get-All Q group ((k, x) ∷ rest) {e = e} (q, h) found = elim (Bool-cases (k == group)) [
  | inl t ↦
      let this : ◌≡◌ {A = Option GroupEntry} (some x) (some e) = rw t at found in
      let same : x ≡ e = cc in subst Q same q
  | inr t ↦ get-All Q group rest h (rw t at found)
]

insert-All :
    (Q : GroupEntry → Type 0) (group : ℕ) (e : GroupEntry) (m : Map ℕ GroupEntry)
    → Q e
    → All (λ (x : ℕ × GroupEntry). Q x.1) m
    → All (λ (x : ℕ × GroupEntry). Q x.1) (insert group e m)
unfolding insert
insert-All Q group e [] q h = (q, tt)
insert-All Q group e ((k, x) ∷ rest) q (p, h) = elim (Bool-cases (k == group)) [
  | inl t ↦ rw (t, insert) (q, h)
  | inr t ↦ rw (t, insert) (p, insert-All Q group e rest q h)
]

module _ (group : ℕ) (entry : GroupEntry) (a b : Counts)
    (lives : All (LivesIn entry.pd) entry.connections)
    (changes : Changes entry.pd.pd (suc (length entry.connections)) a b) where
  -- The group's entry gains a connection.
  extended-IsCounted :
      (groups : Map ℕ GroupEntry) (old : GroupEntry)
      → get group groups ≡ some old
      → old.pd ≡ entry.pd
      → IsCounted groups a
      → IsCounted (insert group entry groups) b
  unfolding get insert
  extended-IsCounted [] old found same h = cc
  extended-IsCounted ((k, e) ∷ rest) old found same (n, each, own, h) =
      elim (Bool-cases (k == group)) [
        | inl t ↦
            let this : ◌≡◌ {A = Option GroupEntry} (some e) (some old) = rw t at found in
            let equal : e ≡ old = cc in
            let ptr : e.pd.pd ≡ entry.pd.pd =
              ap (λ (x : GroupEntry). x.pd.pd) equal ∙ ap (λ (x : ProtectionDomain). x.pd) same in
            let apart = subst (λ p. All (λ (x : ℕ × GroupEntry). ¬ (p ≡ x.1.pd.pd)) rest) ptr own in
            rw (t, insert)
              (
                changes.here,
                lives,
                apart,
                IsCounted-apart entry.pd.pd rest a b changes.there apart h,
              )
        | inr t ↦
            let later : get group rest ≡ some old = rw t at found in
            let other : ¬ (e.pd.pd ≡ entry.pd.pd) =
              subst (λ (d : ProtectionDomain). ¬ (e.pd.pd ≡ d.pd)) same
                (get-All (λ (x : GroupEntry). ¬ (e.pd.pd ≡ x.pd.pd)) group rest own later) in
            rw (t, insert)
              (
                changes.there e.pd.pd (λ q. other (sym q)) ∙ n,
                each,
                insert-All (λ (x : GroupEntry). ¬ (e.pd.pd ≡ x.pd.pd)) group entry rest other own,
                extended-IsCounted rest old later same h,
              )
      ]

  -- A group is new, with a domain that no other has.
  added-IsCounted :
      (groups : Map ℕ GroupEntry)
      → get group groups ≡ none
      → All (λ (x : ℕ × GroupEntry). ¬ (entry.pd.pd ≡ x.1.pd.pd)) groups
      → IsCounted groups a
      → IsCounted (insert group entry groups) b
  unfolding get insert
  added-IsCounted [] found fresh h = (changes.here, lives, tt, tt)
  added-IsCounted ((k, e) ∷ rest) found (apart, fresh) (n, each, own, h) =
      elim (Bool-cases (k == group)) [
        | inl t ↦ cc (rw t at found)
        | inr t ↦
            rw (t, insert)
              (
                changes.there e.pd.pd apart ∙ n,
                each,
                insert-All (λ (x : GroupEntry). ¬ (e.pd.pd ≡ x.pd.pd)) group entry rest
                    (λ q. apart (sym q)) own,
                added-IsCounted rest (rw t at found) fresh h,
              )
      ]

record CountedAt (entry : GroupEntry) (counts : Counts) : Type 0 where
  handles : count entry.pd.pd counts ≡ suc (length entry.connections)
  lives : All (LivesIn entry.pd) entry.connections

get-CountedAt :
    (group : ℕ) (groups : Map ℕ GroupEntry) (counts : Counts) {old : GroupEntry}
    → IsCounted groups counts
    → get group groups ≡ some old
    → CountedAt old counts
unfolding get
get-CountedAt group [] counts h found = cc
get-CountedAt group ((k, e) ∷ rest) counts {old = old} (n, each, own, h) found =
    elim (Bool-cases (k == group)) [
      | inl t ↦
          let this : ◌≡◌ {A = Option GroupEntry} (some e) (some old) = rw t at found in
          let same : e ≡ old = cc in
          subst (λ (x : GroupEntry). CountedAt x counts) same (record { handles = n; lives = each })
      | inr t ↦ get-CountedAt group rest counts h (rw t at found)
    ]

-- The groups of a provider, a group, and a connection that has been accepted for it.
module _ (groups : Map ℕ GroupEntry) (group : ℕ) (conn : Connection) (counts : Counts)
    (h : IsCounted groups counts) where
  extended :
      (old : GroupEntry)
      → get group groups ≡ some old
      → conn.pd ≡ some old.pd
      → IsCounted
          (insert group (record old { connections = old.connections ++ (conn ∷ []) }) groups)
          (joined_handles (some old) conn counts)
  extended old found joins =
      let at = get-CountedAt group groups counts h found in
      let changes = joined-Changes old conn counts in
      extended-IsCounted group (record old { connections = old.connections ++ (conn ∷ []) }) counts
        (joined_handles (some old) conn counts)
        (All-append (LivesIn old.pd) old.connections (conn ∷ []) at.lives (joins, tt))
        (record {
          here = omega (arith, changes.here, at.handles, length-append old.connections (conn ∷ []));
          there = changes.there;
        })
        groups old found refl h

  added :
      (pd : ProtectionDomain)
      → get group groups ≡ none
      → conn.pd ≡ some pd
      → All (λ (x : ℕ × GroupEntry). ¬ (pd.pd ≡ x.1.pd.pd)) groups
      → IsCounted
          (insert group (record { pd = pd; connections = conn ∷ [] }) groups)
          (joined_handles none conn counts)
  added pd found joins fresh =
      added-IsCounted group (record { pd = pd; connections = conn ∷ [] }) counts
        (joined_handles none conn counts) (joins, tt) (created-Changes conn pd counts joins) groups
        found fresh h

  -- If each group's domain has one handle for its entry and one for each of its connections, all of
  -- them in the domain, and no two groups share a domain, then this holds again after a connection
  -- has joined a group, with the handles that the join makes and drops: the connection is in the
  -- group's domain, or, if the group is new, in a domain that no group has yet.
  pub joined_handles-IsCounted :
      {entry : GroupEntry}
      → Joins (group_pd (get group groups)) conn.pd
      → entry_with (get group groups) conn ≡ ok entry
      → (get group groups ≡ none → All (λ (x : ℕ × GroupEntry). ¬ (entry.pd.pd ≡ x.1.pd.pd)) groups)
      → IsCounted (insert group entry groups) (joined_handles (get group groups) conn counts)
  unfolding group_pd
  joined_handles-IsCounted {entry = entry} joins made fresh =
      ended (get group groups) refl joins made
    where
      ended :
          (o : Option GroupEntry)
          → get group groups ≡ o
          → Joins (group_pd o) conn.pd
          → entry_with o conn ≡ ok entry
          → IsCounted (insert group entry groups) (joined_handles o conn counts)
      ended (some old) found lives e =
          let same : (record old { connections = old.connections ++ (conn ∷ []) }) ≡ entry =
            unfold entry_with in cc in
          subst
            (λ (x : GroupEntry).
              IsCounted (insert group x groups) (joined_handles (some old) conn counts))
            same (extended old found lives)
      ended none found (pd, lives) e =
          let first : GroupEntry = record { pd = pd; connections = conn ∷ [] } in
          let both : ◌≡◌ {A = IoResult GroupEntry} (ok first) (ok entry) =
            sym (entry_with_new conn lives) ∙ e in
          let same : first ≡ entry = cc in
          subst
            (λ (x : GroupEntry).
              IsCounted (insert group x groups) (joined_handles none conn counts))
            same
            (added pd found lives (
              subst
                (λ (y : GroupEntry). All (λ (x : ℕ × GroupEntry). ¬ (y.pd.pd ≡ x.1.pd.pd)) groups)
                (sym same) (fresh found)))
