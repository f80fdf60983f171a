-- ===== src/Exchange/Delivery.antt =====
-- From the provider's state to the reader's caches: an exchange as a whole.
use rdmalib.Base.{
  subst, ℕ, ◌≡◌, refl, sym, ap, ap₂, ◌∙◌, Option, none, some, Option-cases, inl, inr, List, [],
  ◌++◌, ==_refl, append-nil, append_cancel, arith,
}
use rdmalib.Base.Io.{ok}
use rdmalib.Base.Map.{Map, get, nat_key, pair_key, list_key, Distinct}
use rdmalib.Meta.Message.{Str, RegionDesc, TupleDesc, metadata, tuples}
use rdmalib.Meta.Frame.{Channel}
use rdmalib.Rdma.Calls.{Library}
use rdmalib.Rdma.Domain.{MemoryRegion}
use rdmalib.Provider.State.{RegionInfo, Shared, Sharing, region_desc, catalog_and_tuples}
use rdmalib.Provider.Sharing.{IsShared, served}
use rdmalib.Provider.Catalog.{
  descs_of, catalog_and_tuples_lem, catalog_and_tuples-IsShared, catalog_and_tuples_catalog,
}
use rdmalib.Provider.Service.{send_exchange}
use rdmalib.Remote.Client.{CachedRegion, RemoteMemoryProvider, receive_exchange, ingest}
use rdmalib.Remote.View.{
  View, view, cached_of, after_exchange, exchanged_at, last_tuple, last_tuple_lem, view-ingest,
}
use rdmalib.Exchange.Channels.{IsSendable, sent, left, send_exchange-ok, receive_exchange-encode}
use rdmalib.Exchange.Offer.{named_info, tuple_desc, described-descs_of, tuples_by_id-served}

-- What the provider's state offers a group's readers under a name and id: the registered region of
-- that id, if it has that name and the provider holds its registration for the group.
abbrev pub offered_by : ℕ → ℕ → Option RegionInfo → Option MemoryRegion → Option CachedRegion
offered_by group id none mr = none
offered_by group id (some info) none = none
offered_by group id (some info) (some mr) = some (record {
  remote_addr = info.remote_addr;
  size = info.size;
  rkey = mr.rkey;
  group = group;
  elem_size = info.elem_size;
  elem_align = info.elem_align;
  elem_type = info.elem_type;
})

abbrev pub offer : ℕ → Shared → Str × ℕ → Option CachedRegion
offer group shared (name, id) =
    offered_by group id (named_info name (get id shared.catalog)) (get (id, group) shared.tuples)

module _ (lib : Library) (group : ℕ) (shared : Shared) where
  abbrev catalog_of : List RegionDesc
  catalog_of = descs_of lib group shared.catalog

  abbrev tuples_of : List TupleDesc
  tuples_of = served group shared.tuples shared.catalog

  named-some :
      (name : Str) (o : Option RegionInfo) {info : RegionInfo}
      → named_info name o ≡ some info
      → o ≡ some info
  named-some name none e = cc
  named-some name (some i) e = ground arith

  -- The two messages say what the state offers.
  offer-after_exchange :
      (old : View) (key : Str × ℕ)
      → IsShared shared
      → Distinct shared.catalog
      → after_exchange group catalog_of tuples_of old key group ≡ offer group shared key
  unfolding region_desc
  offer-after_exchange old (name, id) h d =
      ap (λ o. exchanged_at group (last_tuple tuples_of) o (old (name, id) group) group)
        (described-descs_of lib group name id shared.catalog d)
      ∙ elim (Option-cases (named_info name (get id shared.catalog))) [
        | inl gone ↦ rw gone refl
        | inr (info, named) ↦
            let listed : get id shared.catalog ≡ some info =
              named-some name (get id shared.catalog) named in
            let held =
              sym (last_tuple_lem tuples_of id)
              ∙ tuples_by_id-served group shared.tuples id shared.catalog [] d (unfold get in refl)
                  listed in
            rw named (
              rw (==_refl group)
                (ap (cached_of group (region_desc lib id info)) held ∙ same info listed))
      ]
    where
      same :
          (info : RegionInfo)
          → get id shared.catalog ≡ some info
          → cached_of group
              (region_desc lib id info)
              (tuple_desc id (get (id, group) shared.tuples))
            ≡ offered_by group id (some info) (get (id, group) shared.tuples)
      same info listed = elim (Option-cases (get (id, group) shared.tuples)) [
        | inl none_held ↦ rw none_held refl
        | inr (mr, held) ↦
            let serves = h.at id group mr held in
            let equal : serves.info ≡ info = cc (sym serves.region ∙ listed) in
            rw held (
              ap₂
                (λ a n. some (record {
                  remote_addr = a;
                  size = n;
                  rkey = mr.rkey;
                  group = group;
                  elem_size = info.elem_size;
                  elem_align = info.elem_align;
                  elem_type = info.elem_type;
                }))
                (serves.addr ∙ ap (λ (i : RegionInfo). i.remote_addr) equal)
                (serves.size ∙ ap (λ (i : RegionInfo). i.size) equal))
      ]

-- An exchange as a whole. The provider's invariants hold and no id stands twice in its catalog; both
-- messages fit the wire; the provider sends them, and the reader's channel has exactly those bytes
-- to come. Then the reader receives the two messages with nothing left over, and its caches, in the
-- exchange's group and under every name and id, become what the provider's state then offers: the
-- registered region of that name and id at its address and size, under the key of the group's own
-- registration, and nothing where the provider has none.
pub receive_exchange-delivers :
    (lib : Library) (group : ℕ) (s : Sharing lib) (there here : Channel) {there' : Channel}
    (p : RemoteMemoryProvider)
    → IsShared s.shared
    → Distinct s.shared.catalog
    → IsSendable (catalog_and_tuples lib group s).0.0
    → IsSendable (catalog_and_tuples lib group s).0.1
    → send_exchange (catalog_and_tuples lib group s).0 there ≡ (ok tt, there')
    → sent there' ≡ sent there ++ here.stream.incoming
    → (receive_exchange here ≡ (ok (catalog_and_tuples lib group s).0, left here []))
      × ((key : Str × ℕ)
          → view (ingest group (catalog_and_tuples lib group s).0 p).1 key group
            ≡ offer group (catalog_and_tuples lib group s).1.shared key)
receive_exchange-delivers lib group s there here p h d first second e wire = (
  receive_exchange-encode _ _ [] here first second (
      append_cancel (sent there)
        (sym wire ∙ send_exchange-ok _ _ there e ∙ ap (λ l. sent there ++ l) (sym (append-nil _)))),
  λ key.
      ap (λ x. view (ingest group x p).1 key group) (messages d)
      ∙ ap (λ f. f key group) (view-ingest group _ _ p)
      ∙ offer-after_exchange lib group after (view p) key
          (catalog_and_tuples-IsShared lib group s h) (subst Distinct (sym kept) d),
)
  where
    after : Shared
    after = (catalog_and_tuples lib group s).1.shared

    kept : after.catalog ≡ s.shared.catalog
    kept = catalog_and_tuples_catalog lib group s

    messages :
        Distinct s.shared.catalog
        → (catalog_and_tuples lib group s).0 ≡ (
          metadata (descs_of lib group after.catalog),
          tuples group (served group after.tuples after.catalog),
        )
    messages d =
        catalog_and_tuples_lem lib group s d
        ∙ ap
            (λ (c : Map ℕ RegionInfo).
              (metadata (descs_of lib group c), tuples group (served group after.tuples c)))
            (sym kept)
