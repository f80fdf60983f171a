-- ===== src/Provider/Held.antt =====
-- The handles that a join makes and drops: a group has one for its entry and one for each connection.
use rdmalib.Base.{ℕ, suc, ◌≡◌, ap, ◌∙◌, Option, none, some, arith}
use rdmalib.Base.Map.{nat_key, get-insert_self, get-insert_ne}
use rdmalib.Rdma.Domain.{ProtectionDomain}
use rdmalib.Rdma.OneSided.{Connection}
use rdmalib.Rdma.Handles.{Counts, count, count_or_zero, clone_handle, forget_handle, new_handle}
use rdmalib.Provider.State.{GroupEntry}
use rdmalib.Provider.Counting.{forget_here, forget_there}

-- The handles of a rendezvous that succeeds. With a group, the service clones the entry's handle,
-- `accept_impl` clones that for the connection, and the service's is dropped. Without one, the
-- connection has the domain's first handle, and the new entry clones it.
unfoldable pub joined_handles : Option GroupEntry → Connection → Counts → Counts
joined_handles (some entry) conn counts =
    forget_handle entry.pd (clone_handle entry.pd (clone_handle entry.pd counts))
joined_handles none conn counts = elim conn.pd [
  | none ↦ counts
  | some pd ↦ clone_handle pd (new_handle pd counts)
]

clone_here :
    (pd : ProtectionDomain) (counts : Counts)
    → count pd.pd (clone_handle pd counts) ≡ suc (count pd.pd counts)
unfolding count clone_handle
clone_here pd counts = ap count_or_zero (get-insert_self pd.pd _ counts)

clone_there :
    (pd : ProtectionDomain) (counts : Counts) (ptr : ℕ)
    → ¬ (pd.pd ≡ ptr)
    → count ptr (clone_handle pd counts) ≡ count ptr counts
unfolding count clone_handle
clone_there pd counts ptr apart = ap count_or_zero (get-insert_ne pd.pd ptr _ counts apart)

new_here : (pd : ProtectionDomain) (counts : Counts) → count pd.pd (new_handle pd counts) ≡ 1
unfolding count new_handle
new_here pd counts = ap count_or_zero (get-insert_self pd.pd _ counts)

new_there :
    (pd : ProtectionDomain) (counts : Counts) (ptr : ℕ)
    → ¬ (pd.pd ≡ ptr)
    → count ptr (new_handle pd counts) ≡ count ptr counts
unfolding count new_handle
new_there pd counts ptr apart = ap count_or_zero (get-insert_ne pd.pd ptr _ counts apart)

-- The counts after a change to one domain.
pub record Changes (ptr n : ℕ) (a b : Counts) : Type 0 where
  pub here : count ptr b ≡ n
  pub there : (q : ℕ) → ¬ (ptr ≡ q) → count q b ≡ count q a

pub joined-Changes :
    (entry : GroupEntry) (conn : Connection) (counts : Counts)
    → Changes entry.pd.pd
        (suc (count entry.pd.pd counts))
        counts
        (joined_handles (some entry) conn counts)
unfolding joined_handles
joined-Changes entry conn counts = record {
  here = omega (
    arith,
    forget_here entry.pd (clone_handle entry.pd (clone_handle entry.pd counts)),
    clone_here entry.pd (clone_handle entry.pd counts),
    clone_here entry.pd counts,
  );
  there = λ q apart.
      forget_there entry.pd (clone_handle entry.pd (clone_handle entry.pd counts)) q apart
      ∙ clone_there entry.pd (clone_handle entry.pd counts) q apart
      ∙ clone_there entry.pd counts q apart;
}

pub created-Changes :
    (conn : Connection) (pd : ProtectionDomain) (counts : Counts)
    → conn.pd ≡ some pd
    → Changes pd.pd 2 counts (joined_handles none conn counts)
unfolding joined_handles
created-Changes conn pd counts e =
    rw (e, joined_handles)
      (record {
        here = omega (arith, clone_here pd (new_handle pd counts), new_here pd counts);
        there =
            λ q apart. clone_there pd (new_handle pd counts) q apart ∙ new_there pd counts q apart;
      })
