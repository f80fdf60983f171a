-- ===== src/Provider/Dropping.antt =====
-- The drop of the provider: its registrations go before the domains that they belong to.
use rdmalib.Base.{
  ℕ, ◌≡◌, refl, sym, ap, ◌∙◌, Bool, true, false, not, Option, none, some, List, [], ◌∷◌, ◌++◌, All,
  All-append, append-nil, append_assoc, ◌==◌,
}
use rdmalib.Base.Io.{IoResult, ok, err}
use rdmalib.Base.Exec.{Exec, ◌>>=◌, ◌>>◌, continue, pure}
use rdmalib.Base.Map.{Map}
use rdmalib.Rdma.Calls.{
  Library, Host, Call, ask, call, ibv_dealloc_pd, ibv_destroy_cq, ibv_dereg_mr,
  rdma_destroy_event_channel, rdma_destroy_id, rdma_destroy_qp, rdma_disconnect, id_qp,
}
use rdmalib.Rdma.Domain.{MemoryRegion, ProtectionDomain, drop_region}
use rdmalib.Rdma.OneSided.{Connection}
use rdmalib.Rdma.Connect.{
  Listener, when, release, release_field, drop_id, drop_connection, drop_listener,
}
use rdmalib.Provider.State.{GroupEntry}
use rdmalib.Provider.System.{System}
use rdmalib.Provider.Serving.{
  is_last, drop_tuples, drop_connections, drop_groups, drop_service, drop_provider,
}

abbrev pub deregisters : Call → Bool
deregisters (ibv_dereg_mr mr) = true
deregisters c = false

-- A deregistration or the deallocation of a domain.
abbrev pub frees : Call → Bool
frees (ibv_dealloc_pd pd) = true
frees (ibv_dereg_mr mr) = true
frees c = false

-- A call that is not of the kind.
abbrev pub Not : (Call → Bool) → Call → Type 0
Not kind c = kind c ≡ false

-- The deregistrations of the tuples, in their order.
abbrev pub deregistrations : Map (ℕ × ℕ) MemoryRegion → List Call
deregistrations [] = []
deregistrations ((key, mr) ∷ rest) = ibv_dereg_mr mr.mr ∷ deregistrations rest

module _ (lib : Library) (kind : Call → Bool) where
  -- From one host to the next, only calls that are not of the kind are made.
  pub record Spares (h h' : Host lib.World) : Type 0 where
    pub calls : List Call
    pub log : h'.log ≡ h.log ++ calls
    pub spared : All (Not kind) calls

  Spares-refl : (h : Host lib.World) → Spares h h
  Spares-refl h = record { calls = []; log = sym (append-nil h.log); spared = tt }

  Spares-trans : {h k m : Host lib.World} → Spares h k → Spares k m → Spares h m
  Spares-trans {h = h} a b = record {
    calls = a.calls ++ b.calls;
    log = b.log ∙ ap (λ l. l ++ b.calls) a.log ∙ append_assoc h.log a.calls b.calls;
    spared = All-append (Not kind) a.calls b.calls a.spared b.spared;
  }

  abbrev IsSparing : {A : Type 0} → Exec (Host lib.World) A → Type 0
  IsSparing m = (h : Host lib.World) → Spares h (m h).1

  IsSparing-call : (c : Call) → Not kind c → IsSparing (call lib c)
  unfolding call ask
  IsSparing-call c other h = record { calls = c ∷ []; log = refl; spared = (other, tt) }

  IsSparing-bind :
      {A B : Type 0} (m : Exec (Host lib.World) A) (f : A → Exec (Host lib.World) B)
      → IsSparing m
      → ((a : A) → IsSparing (f a))
      → IsSparing (m >>= f)
  IsSparing-bind {A} {B} m f hm hf h = go (m h) (hm h)
    where
      go : (p : IoResult A × Host lib.World) → Spares h p.1 → Spares h (continue p.0 f p.1).1
      go (ok a, h') e = Spares-trans e (hf a h')
      go (err x, h') e = e

  IsSparing-when :
      (test : Bool) (m : Exec (Host lib.World) (Unit {0})) → IsSparing m → IsSparing (when test m)
  unfolding when
  IsSparing-when true m hm h = hm h
  IsSparing-when false m hm h = Spares-refl h

  IsSparing-one : (c : Call) → Not kind c → IsSparing (do call lib c; pure tt)
  IsSparing-one c other =
      IsSparing-bind (call lib c) (λ a. pure tt) (IsSparing-call c other) (λ a h. Spares-refl h)

module _ (lib : Library) where
  release-IsSparing :
      (sole : Bool) (pd : ProtectionDomain) → IsSparing lib deregisters (release lib sole pd)
  unfolding release
  release-IsSparing true pd h = IsSparing-one lib deregisters (ibv_dealloc_pd pd.pd) refl h
  release-IsSparing false pd h = Spares-refl lib deregisters h

  release_field-IsSparing :
      (sole : Bool) (field : Option ProtectionDomain)
      → IsSparing lib deregisters (release_field lib sole field)
  unfolding release_field
  release_field-IsSparing sole none h = Spares-refl lib deregisters h
  release_field-IsSparing sole (some pd) h = release-IsSparing sole pd h

  abbrev unpair : ℕ → Exec (Host lib.World) (Unit {0})
  unpair id = do call lib (rdma_disconnect id); call lib (rdma_destroy_qp id); pure tt

  drop_id-IsSparing : (id : ℕ) → IsSparing lib deregisters (drop_id lib id)
  unfolding drop_id
  drop_id-IsSparing id =
      IsSparing-bind lib deregisters (call lib (id_qp id)) _
        (IsSparing-call lib deregisters (id_qp id) refl)
        (λ qp.
          IsSparing-bind lib deregisters (when (not (qp == 0)) (unpair id)) _
            (IsSparing-when lib deregisters (not (qp == 0)) (unpair id) (
              IsSparing-bind lib deregisters (call lib (rdma_disconnect id)) _
                (IsSparing-call lib deregisters (rdma_disconnect id) refl)
                (λ ret. IsSparing-one lib deregisters (rdma_destroy_qp id) refl)))
            (λ t. IsSparing-one lib deregisters (rdma_destroy_id id) refl))

  drop_connection-IsSparing :
      (sole : Bool) (c : Connection) → IsSparing lib deregisters (drop_connection lib sole c)
  unfolding drop_connection
  drop_connection-IsSparing sole c =
      let dropped = IsSparing-when lib deregisters in
      let free : Exec (Host lib.World) (Unit {0}) = (do call lib (ibv_destroy_cq c.cq); pure tt) in
      let close : Exec (Host lib.World) (Unit {0}) = (do
        call lib (rdma_destroy_event_channel c.event_channel)
        pure tt) in
      IsSparing-bind lib deregisters (when (not (c.id == 0)) (drop_id lib c.id)) _
        (dropped (not (c.id == 0)) (drop_id lib c.id) (drop_id-IsSparing c.id))
        (λ t.
          IsSparing-bind lib deregisters (when (not (c.cq == 0)) free) _
            (dropped (not (c.cq == 0)) free
              (IsSparing-one lib deregisters (ibv_destroy_cq c.cq) refl))
            (λ t.
              IsSparing-bind lib deregisters (when (not (c.event_channel == 0)) close) _
                (dropped (not (c.event_channel == 0)) close
                  (IsSparing-one lib deregisters (rdma_destroy_event_channel c.event_channel) refl))
                (λ t. release_field-IsSparing sole c.pd)))

  drop_connections-Spares :
      (conns : List Connection) (h : Host lib.World)
      → Spares lib deregisters h (drop_connections lib conns h)
  unfolding drop_connections
  drop_connections-Spares [] h = Spares-refl lib deregisters h
  drop_connections-Spares (c ∷ rest) h =
      Spares-trans lib deregisters (drop_connection-IsSparing (is_last lib rest) c h)
        (drop_connections-Spares rest _)

  drop_groups-Spares :
      (groups : Map ℕ GroupEntry) (h : Host lib.World)
      → Spares lib deregisters h (drop_groups lib groups h)
  unfolding drop_groups
  drop_groups-Spares [] h = Spares-refl lib deregisters h
  drop_groups-Spares ((group, entry) ∷ rest) h =
      Spares-trans lib deregisters (release-IsSparing (is_last lib entry.connections) entry.pd h) (
        Spares-trans lib deregisters (drop_connections-Spares entry.connections _)
          (drop_groups-Spares rest _))

  drop_service-Spares :
      (listener : Option Listener) (h : Host lib.World)
      → Spares lib frees h (drop_service lib listener h)
  unfolding drop_service drop_listener
  drop_service-Spares none h = Spares-refl lib frees h
  drop_service-Spares (some l) h =
      IsSparing-bind lib frees (call lib (rdma_destroy_id l.id)) _
        (IsSparing-call lib frees (rdma_destroy_id l.id) refl)
        (λ ret. IsSparing-one lib frees (rdma_destroy_event_channel l.event_channel) refl) h

  drop_tuples_log :
      (ts : Map (ℕ × ℕ) MemoryRegion) (h : Host lib.World)
      → (drop_tuples lib ts h).log ≡ h.log ++ deregistrations ts
  unfolding drop_tuples drop_region call ask
  drop_tuples_log [] h = sym (append-nil h.log)
  drop_tuples_log ((key, mr) ∷ rest) h =
      drop_tuples_log rest (drop_region lib mr h).1
      ∙ append_assoc h.log (ibv_dereg_mr mr.mr ∷ []) (deregistrations rest)

  -- The calls of the provider's drop: before the tuples' and after them.
  pub record Dropped (ts : Map (ℕ × ℕ) MemoryRegion) (h h' : Host lib.World) : Type 0 where
    pub first : List Call
    pub last : List Call
    pub log : h'.log ≡ h.log ++ (first ++ (deregistrations ts ++ last))
    pub nothing_freed : All (Not frees) first
    pub no_dereg : All (Not deregisters) last

  -- The drop of the provider deregisters each of its tuples once, in the order of the tuple map, and
  -- no other registration: no call before these is a deregistration or deallocates a protection
  -- domain, and no call after them is a deregistration.
  pub drop_provider-Dropped :
      (listener : Option Listener) (y : System lib)
      → Dropped y.provider.shared.tuples y.host (drop_provider lib listener y)
  unfolding drop_provider
  drop_provider-Dropped listener y =
      let ts = y.provider.shared.tuples in
      let stopped = drop_service-Spares listener y.host in
      let ended =
        drop_groups-Spares y.provider.shared.groups
          (drop_tuples lib y.provider.shared.tuples (drop_service lib listener y.host)) in
      record {
        first = stopped.calls;
        last = ended.calls;
        log =
            ended.log
            ∙ ap (λ l. l ++ ended.calls)
                (drop_tuples_log ts (drop_service lib listener y.host)
                  ∙ ap (λ l. l ++ deregistrations ts) stopped.log)
            ∙ append_assoc (y.host.log ++ stopped.calls) (deregistrations ts) ended.calls
            ∙ append_assoc y.host.log stopped.calls (deregistrations ts ++ ended.calls);
        nothing_freed = stopped.spared;
        no_dereg = ended.spared;
      }
