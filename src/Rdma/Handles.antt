-- ===== src/Rdma/Handles.antt =====
-- src/rdma/verbs.rs: the handles of protection domains, as `Arc` counts them.
use rdmalib.Base.{ℕ, suc, ◌-◌, Bool, false, Option, none, some, ◌==◌}
use rdmalib.Base.Map.{Map, get, insert, nat_key}
use rdmalib.Rdma.Calls.{Library, Host}
use rdmalib.Rdma.Domain.{ProtectionDomain}
use rdmalib.Rdma.OneSided.{Connection}
use rdmalib.Rdma.Connect.{release, drop_connection}

-- How many handles there are of each domain; a domain is known by its pointer.
abbrev pub Counts : Type 0
Counts = Map ℕ ℕ

abbrev pub count_or_zero : Option ℕ → ℕ
count_or_zero none = 0
count_or_zero (some n) = n

unfoldable pub count : ℕ → Counts → ℕ
count ptr counts = count_or_zero (get ptr counts)

-- The first handle of a domain that `alloc` has made.
unfoldable pub new_handle : ProtectionDomain → Counts → Counts
new_handle pd counts = insert pd.pd 1 counts

-- The clone of a handle, and the count when one is dropped.
unfoldable pub clone_handle : ProtectionDomain → Counts → Counts
clone_handle pd counts = insert pd.pd (suc (count pd.pd counts)) counts

unfoldable pub forget_handle : ProtectionDomain → Counts → Counts
forget_handle pd counts = insert pd.pd (count pd.pd counts - 1) counts

unfoldable pub is_sole : ProtectionDomain → Counts → Bool
is_sole pd counts = count pd.pd counts == 1

module _ (lib : Library) where
  pub record Counted : Type 0 where
    pub host : Host lib.World
    pub counts : Counts

  -- The drop of a handle: the last one drops the `PdInner`, which deallocates the domain.
  unfoldable pub drop_handle : ProtectionDomain → Counted → Counted
  drop_handle pd s = record {
    host = (release lib (is_sole pd s.counts) pd s.host).1;
    counts = forget_handle pd s.counts;
  }

  -- The drop of a connection, whose handle goes last.
  unfoldable pub drop_counted : Connection → Option ProtectionDomain → Counted → Counted
  drop_counted conn none s = record s { host = (drop_connection lib false conn s.host).1 }
  drop_counted conn (some pd) s = record {
    host = (drop_connection lib (is_sole pd s.counts) conn s.host).1;
    counts = forget_handle pd s.counts;
  }
