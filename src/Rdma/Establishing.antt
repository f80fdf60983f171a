-- ===== src/Rdma/Establishing.antt =====
-- Connections that come about: their protection domain; and what a failing `bind` leaves behind.
use rdmalib.Base.{
  subst, ℕ, ◌≡◌, refl, sym, ap, ◌∙◌, Option, none, some, Bool, true, false, List, [], ◌∷◌, ◌++◌,
  append_assoc, arith,
}
use rdmalib.Base.Int.{is_zero}
use rdmalib.Base.Io.{IoResult, ok, err, other}
use rdmalib.Base.Exec.{Exec, ◌>>◌, >>=-eq-ok, lift}
use rdmalib.Rdma.Calls.{
  Library, Host, SockaddrIn, ask, call, check, check_ptr, rdma_get_cm_event, id_verbs,
  rdma_create_event_channel, rdma_create_id,
}
use rdmalib.Rdma.Domain.{ProtectionDomain}
use rdmalib.Rdma.OneSided.{Connection, Rdma}
use rdmalib.Rdma.Connect.{
  SocketAddr, Listener, rdma_ps_tcp, resolve_v4, on_error, on_host, assign, conn_id, finish,
  finish_connect, finish_accept, resolve_device, device_domain, accept_request, create_pair,
  create_resources, connect_to, built, connect, bind, domain_for, accept_on, accept_impl, is_none,
}

-- In whose domain an accepted connection is: the given one, or one of its own.
abbrev pub Joins : Option ProtectionDomain → Option ProtectionDomain → Type 0
Joins none own = (pd : ProtectionDomain) × (own ≡ some pd)
Joins (some pd) own = own ≡ some pd

module _ (lib : Library) where
  create_resources-ok :
      (sole : Bool) (pd : ProtectionDomain) (s : Rdma lib) {s' : Rdma lib}
      → create_resources lib sole pd s ≡ (ok tt, s')
      → s'.conn.pd ≡ some pd
  unfolding create_resources assign
  create_resources-ok sole pd s e =
      let (t, s₁, e₁, k) = >>=-eq-ok (on_error _ (create_pair lib pd)) _ s e in cc

  finish-ok :
      (m : ℕ → Exec (Host lib.World) (Unit {0})) (s : Rdma lib) {s' : Rdma lib}
      → finish lib m s ≡ (ok tt, s')
      → s'.conn ≡ s.conn
  unfolding finish conn_id on_host
  finish-ok m s e = cc

  -- The creation of the resources and the last steps leave the connection in the domain.
  set_up-ok :
      (sole : Bool) (pd : ProtectionDomain) (m : ℕ → Exec (Host lib.World) (Unit {0}))
      (s : Rdma lib) {s' : Rdma lib}
      → (do create_resources lib sole pd; finish lib m) s ≡ (ok tt, s')
      → s'.conn.pd ≡ some pd
  set_up-ok sole pd m s e =
      let (t, s₁, e₁, e₂) = >>=-eq-ok (create_resources lib sole pd) _ s e in
      ap (λ (c : Connection). c.pd) (finish-ok m s₁ e₂) ∙ create_resources-ok sole pd s e₁

  connect_to-ok :
      (channel : ℕ) (dst : SockaddrIn) (s : Rdma lib) {s' : Rdma lib}
      → connect_to lib channel dst s ≡ (ok tt, s')
      → (pd : ProtectionDomain) × (s'.conn.pd ≡ some pd)
  unfolding connect_to
  connect_to-ok channel dst s e =
      let (pd, s₁, e₁, e₂) = >>=-eq-ok (resolve_device lib channel dst) _ s e in
      (pd, set_up-ok true pd (finish_connect lib channel) s₁ e₂)

  domain_for-Joins :
      (domain : Option ProtectionDomain) (context : ℕ) (h : Host lib.World) {pd : ProtectionDomain}
      {h' : Host lib.World}
      → domain_for lib domain context h ≡ (ok pd, h')
      → Joins domain (some pd)
  unfolding domain_for
  domain_for-Joins none context h {pd} e = (pd, refl)
  domain_for-Joins (some shared) context h e = ground arith

  device_domain-Joins :
      (domain : Option ProtectionDomain) (s : Rdma lib) {pd : ProtectionDomain} {s' : Rdma lib}
      → device_domain lib domain s ≡ (ok pd, s')
      → Joins domain (some pd)
  unfolding device_domain conn_id on_host call
  device_domain-Joins domain s e =
      domain_for-Joins domain (ask lib (id_verbs s.conn.id) s.host).0
        (ask lib (id_verbs s.conn.id) s.host).1
        {h' = (domain_for lib domain (ask lib (id_verbs s.conn.id) s.host).0
          (ask lib (id_verbs s.conn.id) s.host).1).1}
        (cc)

  accept_on-Joins :
      (l : Listener) (domain : Option ProtectionDomain) (s : Rdma lib) {s' : Rdma lib}
      → accept_on lib l domain s ≡ (ok tt, s')
      → Joins domain s'.conn.pd
  unfolding accept_on
  accept_on-Joins l domain s e =
      let (pd, s₁, e₁, e₂) = >>=-eq-ok (device_domain lib domain) _ s e in
      subst (Joins domain)
        (sym (set_up-ok (is_none lib domain) pd (finish_accept lib l.event_channel) s₁ e₂))
        (device_domain-Joins domain s e₁)

  built-ok :
      (sole : Bool) (p : IoResult (Unit {0}) × Rdma lib) {c : Connection} {h : Host lib.World}
      → built lib sole p ≡ (ok c, h)
      → (s' : Rdma lib) × (p ≡ (ok tt, s')) × (s'.conn ≡ c)
  unfolding built
  built-ok sole (ok x, s') e = (s', refl, cc)
  built-ok sole (err x, s') e = cc

  -- A connection that `connect` returns has a protection domain.
  pub connect_has_domain :
      (addrs : IoResult (List SocketAddr)) (h : Host lib.World) {c : Connection}
      {h' : Host lib.World}
      → connect lib addrs h ≡ (ok c, h')
      → (pd : ProtectionDomain) × (c.pd ≡ some pd)
  unfolding connect
  connect_has_domain addrs h e =
      let (dst, h₁, e₁, k₁) = >>=-eq-ok (lift (resolve_v4 addrs)) _ h e in
      let (ptr, h₂, e₂, k₂) = >>=-eq-ok (call lib rdma_create_event_channel) _ h₁ k₁ in
      let (channel, h₃, e₃, k₃) = >>=-eq-ok (lift (check_ptr ptr)) _ h₂ k₂ in
      let (s, done, same) = built-ok true _ k₃ in
      let (pd, has) = connect_to-ok channel dst _ done in
      (pd, ap (λ (c : Connection). c.pd) (sym same) ∙ has)

  -- A connection accepted into a given domain is in that very domain, and one accepted without is
  -- in some domain.
  pub accept_impl-Joins :
      (l : Listener) (domain : Option ProtectionDomain) (h : Host lib.World) {c : Connection}
      {h' : Host lib.World}
      → accept_impl lib l domain h ≡ (ok c, h')
      → Joins domain c.pd
  unfolding accept_impl
  accept_impl-Joins l domain h e =
      let (answer, h₁, e₁, k₁) = >>=-eq-ok (call lib (rdma_get_cm_event l.event_channel)) _ h e in
      let (t, h₂, e₂, k₂) = >>=-eq-ok (lift (check answer.0)) _ h₁ k₁ in
      let (t', h₃, e₃, k₃) = >>=-eq-ok (accept_request lib answer.1) _ h₂ k₂ in
      let (s, done, same) = built-ok (is_none lib domain) _ k₃ in
      subst (λ (c : Connection). Joins domain c.pd) same (accept_on-Joins l domain _ done)

  -- A `bind` that resolves its address and creates its event channel, but then cannot create its
  -- id, returns an error after these two calls only: none destroys the channel.
  pub bind_leaks :
      (addrs : IoResult (List SocketAddr)) (addr : SockaddrIn) (h : Host lib.World)
      → resolve_v4 addrs ≡ ok addr
      → check_ptr (ask lib rdma_create_event_channel h).0
        ≡ ok (ask lib rdma_create_event_channel h).0
      → is_zero
          (ask lib
            (rdma_create_id (ask lib rdma_create_event_channel h).0 rdma_ps_tcp)
            (ask lib rdma_create_event_channel h).1).0.0
        ≡ false
      → ((bind lib addrs h).0 ≡ err other)
        × ((bind lib addrs h).1.log
            ≡ h.log
              ++ (rdma_create_event_channel
                  ∷ rdma_create_id (ask lib rdma_create_event_channel h).0 rdma_ps_tcp
                  ∷ []))
  unfolding bind call check ask
  bind_leaks addrs addr h resolved channel failed =
      let r : bind lib addrs h ≡ (
        err other,
        (ask lib (rdma_create_id (ask lib rdma_create_event_channel h).0 rdma_ps_tcp)
            (ask lib rdma_create_event_channel h).1).1,
      ) =
        rw resolved (rw channel (rw failed refl)) in
      (
        ap (λ (p : IoResult Listener × Host lib.World). p.0) r,
        ap (λ (p : IoResult Listener × Host lib.World). p.1.log) r
            ∙ append_assoc h.log (rdma_create_event_channel ∷ []) _,
      )
