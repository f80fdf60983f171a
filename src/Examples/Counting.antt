-- ===== src/Examples/Counting.antt =====
-- Tests of the handles of a group with one reader: a second one joins, and the group is dropped.
use rdmalib.Base.Io.{ok}
use rdmalib.Rdma.Establishing.{Joins}
use rdmalib.Provider.Service.{group_pd, entry_with}
use rdmalib.Provider.Held.{joined_handles}
use rdmalib.Provider.Holding.{joined_handles-IsCounted}
use rdmalib.Base.{ℕ, ◌≡◌, refl, sym, ◌∙◌, some, [], ◌∷◌}
use rdmalib.Base.Map.{Map, get, insert, nat_key}
use rdmalib.Rdma.Handles.{count, Counted}
use rdmalib.Provider.State.{GroupEntry}
use rdmalib.Provider.Serving.{drop_groups}
use rdmalib.Provider.Counting.{IsCounted, AllGone, drop_groups_counted, drop_groups_counted_lem}
use rdmalib.Examples.Device.{device, idle, domain, connection}

abbrev groups : Map ℕ GroupEntry
groups = (5, record { pd = domain; connections = connection ∷ [] }) ∷ []

abbrev start : Counted device
start = record { host = idle; counts = (3, 2) ∷ [] }

start-IsCounted : IsCounted groups start.counts
unfolding count get
start-IsCounted = (refl, (refl, tt), tt, tt)

drop_groups_counted_lem_example :
    ((drop_groups_counted device groups start).host ≡ drop_groups device groups idle)
    × AllGone groups (drop_groups_counted device groups start).counts
drop_groups_counted_lem_example = drop_groups_counted_lem device groups start start-IsCounted

abbrev grown : GroupEntry
grown = record { pd = domain; connections = connection ∷ connection ∷ [] }

joins : Joins (group_pd (get 5 groups)) connection.pd
unfolding get group_pd
joins = refl

extends : entry_with (get 5 groups) connection ≡ ok grown
unfolding get entry_with
extends = refl

known : get 5 groups ≡ some (record { pd = domain; connections = connection ∷ [] })
unfolding get
known = refl

joined_handles-IsCounted_example :
    IsCounted (insert 5 grown groups) (joined_handles (get 5 groups) connection start.counts)
joined_handles-IsCounted_example =
    joined_handles-IsCounted groups 5 connection start.counts start-IsCounted {entry = grown} joins
      extends (λ e. cc (sym known ∙ e))
