-- ===== src/Rdma/Teardown.antt =====
-- src/rdma/verbs.rs: the drop of a connection, against the order that the libraries' documentation
-- asks for: an object that another one still uses cannot be destroyed.
pub mod Order
use rdmalib.Base.{
  ℕ, ◌≡◌, refl, sym, ap, ◌∙◌, Bool, true, false, not, Option, none, some, List, [], ◌∷◌, ◌++◌,
  append-nil, append_assoc, ◌==◌, ==_refl, ◌&&◌, ◌||◌, if◌then◌else◌, arith,
}
use rdmalib.Base.Io.{IoResult, ok}
use rdmalib.Base.Exec.{Exec, ◌>>=◌, ◌>>◌, continue, pure}
use rdmalib.Rdma.Calls.{
  Library, Host, Call, ask, call, ibv_dealloc_pd, ibv_destroy_cq, ibv_dereg_mr,
  rdma_destroy_event_channel, rdma_destroy_id, rdma_destroy_qp, rdma_disconnect, id_qp,
}
use rdmalib.Rdma.Domain.{ProtectionDomain}
use rdmalib.Rdma.OneSided.{Connection}
use rdmalib.Rdma.Connect.{when, release, release_field, drop_id, drop_connection}
use rdmalib.Rdma.Teardown.Order.{destroyed, all_destroyed, kept_alive}

module _ (lib : Library) where
  -- From a host, a run that succeeds and makes these calls.
  record Makes (m : Exec (Host lib.World) (Unit {0})) (calls : List Call) (h : Host lib.World)
      : Type 0 where
    pub end : Host lib.World
    pub run : m h ≡ (ok tt, end)
    pub log : end.log ≡ h.log ++ calls

  abbrev chosen : Bool → List Call → List Call
  chosen true calls = calls
  chosen false calls = []

  Makes-pure : (h : Host lib.World) → Makes (pure tt) [] h
  Makes-pure h = record { end = h; run = refl; log = sym (append-nil h.log) }

  Makes-call :
      (k : Call) (m : Exec (Host lib.World) (Unit {0})) (calls : List Call) (h : Host lib.World)
      → Makes m calls (ask lib k h).1
      → Makes (call lib k >>= (λ a. m)) (k ∷ calls) h
  unfolding call ask
  Makes-call k m calls h later = record {
    end = later.end;
    run = later.run;
    log = later.log ∙ append_assoc h.log (k ∷ []) calls;
  }

  Makes-bind :
      (m k : Exec (Host lib.World) (Unit {0})) (before after : List Call) (h : Host lib.World)
      → Makes m before h
      → ((h' : Host lib.World) → Makes k after h')
      → Makes (m >>= (λ t. k)) (before ++ after) h
  Makes-bind m k before after h first then_k =
      let next = then_k first.end in
      record {
        end = next.end;
        run =
            ap (λ (p : IoResult (Unit {0}) × Host lib.World). continue p.0 (λ t. k) p.1) first.run
            ∙ next.run;
        log = next.log ∙ ap (λ l. l ++ after) first.log ∙ append_assoc h.log before after;
      }

  Makes-when :
      (test : Bool) (m : Exec (Host lib.World) (Unit {0})) (calls : List Call) (h : Host lib.World)
      → Makes m calls h
      → Makes (when test m) (chosen test calls) h
  unfolding when
  Makes-when true m calls h made = made
  Makes-when false m calls h made = Makes-pure h

  Makes-one : (k : Call) (h : Host lib.World) → Makes (do call lib k; pure tt) (k ∷ []) h
  Makes-one k h = Makes-call k (pure tt) [] h (Makes-pure _)

  abbrev domain_calls : Bool → Option ProtectionDomain → List Call
  domain_calls sole none = []
  domain_calls sole (some pd) = chosen sole (ibv_dealloc_pd pd.pd ∷ [])

  abbrev id_calls : Bool → ℕ → List Call
  id_calls paired id =
      id_qp id
      ∷ (chosen paired (rdma_disconnect id ∷ rdma_destroy_qp id ∷ []) ++ (rdma_destroy_id id ∷ []))

  abbrev drop_calls : Bool → Bool → Connection → List Call
  drop_calls paired sole c =
      chosen (not (c.id == 0)) (id_calls paired c.id)
      ++ (chosen (not (c.cq == 0)) (ibv_destroy_cq c.cq ∷ [])
          ++ (chosen (not (c.event_channel == 0)) (rdma_destroy_event_channel c.event_channel ∷ [])
              ++ domain_calls sole c.pd))

  -- Whether the library says that the id has a queue pair.
  abbrev pub has_pair : ℕ → Host lib.World → Bool
  has_pair id h = not ((ask lib (id_qp id) h).0 == 0)

  drop_id-Makes :
      (id : ℕ) (h : Host lib.World) → Makes (drop_id lib id) (id_calls (has_pair id h) id) h
  unfolding drop_id call ask
  drop_id-Makes id h =
      let unpair : Exec (Host lib.World) (Unit {0}) = (do
        call lib (rdma_disconnect id)
        call lib (rdma_destroy_qp id)
        pure tt) in
      let h₁ = (ask lib (id_qp id) h).1 in
      let rest =
        Makes-bind (when (has_pair id h) unpair) (do call lib (rdma_destroy_id id); pure tt) _ _ h₁
          (Makes-when (has_pair id h) unpair _ h₁ (
            Makes-call (rdma_disconnect id) (do call lib (rdma_destroy_qp id); pure tt) _ h₁
              (Makes-one (rdma_destroy_qp id) _)))
          (λ h'. Makes-one (rdma_destroy_id id) h') in
      record {
        end = rest.end;
        run = rest.run;
        log = rest.log ∙ append_assoc h.log (id_qp id ∷ []) _;
      }

  release_field-Makes :
      (sole : Bool) (field : Option ProtectionDomain) (h : Host lib.World)
      → Makes (release_field lib sole field) (domain_calls sole field) h
  unfolding release_field release
  release_field-Makes sole none h = Makes-pure h
  release_field-Makes true (some pd) h = Makes-one (ibv_dealloc_pd pd.pd) h
  release_field-Makes false (some pd) h = Makes-pure h

  drop_connection-Makes :
      (sole : Bool) (c : Connection) (h : Host lib.World)
      → Makes (drop_connection lib sole c) (drop_calls (has_pair c.id h) sole c) h
  unfolding drop_connection
  drop_connection-Makes sole c h =
      let free : Exec (Host lib.World) (Unit {0}) = (do call lib (ibv_destroy_cq c.cq); pure tt) in
      let close : Exec (Host lib.World) (Unit {0}) = (do
        call lib (rdma_destroy_event_channel c.event_channel)
        pure tt) in
      Makes-bind (when (not (c.id == 0)) (drop_id lib c.id)) _ _ _ h
        (Makes-when (not (c.id == 0)) (drop_id lib c.id) _ h (drop_id-Makes c.id h))
        (λ h₁.
          Makes-bind (when (not (c.cq == 0)) free) _ _ _ h₁
            (Makes-when (not (c.cq == 0)) free _ h₁ (Makes-one (ibv_destroy_cq c.cq) h₁))
            (λ h₂.
              Makes-bind (when (not (c.event_channel == 0)) close) _ _ _ h₂
                (Makes-when (not (c.event_channel == 0)) close _ h₂
                  (Makes-one (rdma_destroy_event_channel c.event_channel) h₂))
                (λ h₃. release_field-Makes sole c.pd h₃)))

  drop_calls-destroyed :
      (paired sole : Bool) (c : Connection)
      → destroyed (all_destroyed c (drop_calls paired sole c)) (kept_alive c paired sole) ≡ some []
  drop_calls-destroyed paired sole c =
      ground (arith, ==_refl c.id, ==_refl c.cq, ==_refl c.event_channel)

  -- From one host to another, the calls of a complete teardown of a connection.
  pub record TornDown (paired sole : Bool) (c : Connection) (h h' : Host lib.World) : Type 0 where
    pub calls : List Call
    pub log : h'.log ≡ h.log ++ calls
    pub complete : destroyed (all_destroyed c calls) (kept_alive c paired sole) ≡ some []

  -- The drop of a connection succeeds whatever the library answers. Its calls destroy each object that
  -- the connection keeps alive exactly once (its queue pair, if the library says that its id has one;
  -- its id, completion queue and event channel, if they are not null; its domain, if it has the
  -- last handle) and no other object, in an order in which none is destroyed while another one that
  -- still exists uses it: the queue pair goes before the id, the completion queue and the domain, and
  -- the id before the event channel.
  pub drop_connection-TornDown :
      (sole : Bool) (c : Connection) (h : Host lib.World)
      → ((drop_connection lib sole c h).0 ≡ ok tt)
        × TornDown (has_pair c.id h) sole c h (drop_connection lib sole c h).1
  drop_connection-TornDown sole c h =
      let made = drop_connection-Makes sole c h in
      (
        ap (λ (p : IoResult (Unit {0}) × Host lib.World). p.0) made.run,
        record {
          calls = drop_calls (has_pair c.id h) sole c;
          log = ap (λ (p : IoResult (Unit {0}) × Host lib.World). p.1.log) made.run ∙ made.log;
          complete = drop_calls-destroyed (has_pair c.id h) sole c;
        },
      )
