-- ===== src/Remote/Growing.antt =====
-- An update leaves a good reader, and takes nothing back.
use rdmalib.Base.{
  ℕ, ◌<◌, ◌≡◌, inl, inr, refl, sym, Option, none, some, Option-cases, List, [], ◌∷◌, ◌++◌, length,
  subst,
}
use rdmalib.Base.Io.{IoResult, ok, err}
use rdmalib.Base.Map.{Map, insert, nat_key, pair_key, list_key, get-insert_self}
use rdmalib.Base.Map as Map
use rdmalib.Meta.Message.{Message}
use rdmalib.Meta.Stream.{Stream}
use rdmalib.Meta.Frame.{Channel}
use rdmalib.Rdma.Calls.{Library, Host}
use rdmalib.Rdma.OneSided.{Connection}
use rdmalib.Rdma.Connect.{SocketAddr, connect}
use rdmalib.Remote.Client.{GroupSession, receive_exchange, refresh, join_group}
use rdmalib.Remote.Session.{
  dial, Client, set_channel, ingest_into, session_of, refreshed, fill_slot, exchanged, rendezvous,
  after_join, fresh_session, update_session, update_group,
}
use rdmalib.Remote.Linked.{
  Filled, Linked, IsLinked, Extends, Extends-refl, Extends-trans, Linked-Extends, changed-Extends,
  changed-IsLinked,
}
use rdmalib.Remote.Cells.{
  new_session, with_session, with_cell, new-Extends, new-IsLinked, filling-Filled, filling-Extends,
  filling-IsLinked, ingest-IsLinked, sessions-ingest,
}

module _ (lib : Library) where
  abbrev pub IsReader : Client lib → Type 0
  IsReader c = IsLinked c.provider c.slots

  -- From `c`, a good reader comes about, and nothing is taken back.
  pub record Grown (c d : Client lib) : Type 0 where
    pub linked : IsReader d
    pub extends : Extends c.provider.sessions c.slots d.provider.sessions d.slots

  pub unmoved : (c : Client lib) → IsReader c → Grown c c
  unmoved c h = record { linked = h; extends = Extends-refl c.provider.sessions c.slots }

  pub Grown-trans : {c d e : Client lib} → Grown c d → Grown d e → Grown c e
  Grown-trans f g = record { linked = g.linked; extends = Extends-trans f.extends g.extends }

  set_channel-Grown :
      (group : ℕ) (session : GroupSession) (channel : Option Channel) (c : Client lib)
      → Map.get group c.provider.sessions ≡ some session
      → ((k : Channel) → channel ≡ some k → Filled c.slots session.connection)
      → IsReader c
      → Grown c (set_channel lib group session channel c)
  unfolding set_channel
  set_channel-Grown group session channel c known filled h = record {
    linked = changed-IsLinked c.provider c.slots group session channel known h filled;
    extends = changed-Extends c.provider c.slots group session channel known;
  }

  ingest_into-Grown :
      (group : ℕ) (exchange : Message × Message) (c : Client lib)
      → Linked c.provider.sessions c.slots group
      → IsReader c
      → Grown c (ingest_into lib group exchange c).1
  unfolding ingest_into
  ingest_into-Grown group exchange c l h = record {
    linked = ingest-IsLinked group c.provider c.slots exchange h l;
    extends =
        subst (λ m. Extends c.provider.sessions c.slots m c.slots)
          (sym (sessions-ingest group c.provider c.slots exchange))
          (Extends-refl c.provider.sessions c.slots);
  }

  -- The channel is kept, and the exchange taken in.
  taken-Grown :
      (group : ℕ) (session : GroupSession) (channel : Channel) (exchange : Message × Message)
      (c : Client lib)
      → Map.get group c.provider.sessions ≡ some session
      → Filled c.slots session.connection
      → IsReader c
      → Grown c (ingest_into lib group exchange (set_channel lib group session (some channel) c)).1
  taken-Grown group session channel exchange c known filled h =
      let kept = set_channel-Grown group session (some channel) c known (λ k e. filled) h in
      Grown-trans kept (
        ingest_into-Grown group exchange (set_channel lib group session (some channel) c)
          (Linked-Extends kept.extends group
            (record { session = session; known = known; connected = filled }))
          kept.linked)

  module _ (group : ℕ) (session : GroupSession) (c : Client lib)
      (known : Map.get group c.provider.sessions ≡ some session) (h : IsReader c) where
    refreshed-Grown :
        (p : IoResult (Message × Message) × Channel)
        → Filled c.slots session.connection
        → Grown c (refreshed lib group session p c).1
    unfolding refreshed
    refreshed-Grown (ok exchange, channel) filled =
        taken-Grown group session channel exchange c known filled h
    refreshed-Grown (err e, channel) filled =
        set_channel-Grown group session none c known (λ k e. cc) h

    exchanged-Grown :
        (p : IoResult (Message × Message) × Channel)
        → Filled c.slots session.connection
        → Grown c (exchanged lib group session p c).1
    unfolding exchanged
    exchanged-Grown (ok exchange, channel) filled =
        taken-Grown group session channel exchange c known filled h
    exchanged-Grown (err e, channel) filled = unmoved c h

  fill_slot-Grown :
      (slot : ℕ) (conn : Connection) (c : Client lib)
      → slot < length c.slots
      → IsReader c
      → Grown c (fill_slot lib slot conn c)
  unfolding fill_slot
  fill_slot-Grown slot conn c inside h = record {
    linked = filling-IsLinked c.provider c.slots slot conn inside h;
    extends = filling-Extends c.provider c.slots slot conn inside;
  }

  module _ (group : ℕ) (session : GroupSession) (c : Client lib)
      (known : Map.get group c.provider.sessions ≡ some session) (h : IsReader c) where
    on_host-Grown : (host : Host lib.World) → Grown c (record c { host = host })
    on_host-Grown host = record { linked = h; extends = Extends-refl c.provider.sessions c.slots }

    rendezvous-Grown :
        (channel : Channel) (p : IoResult Connection × Host lib.World)
        → Grown c (rendezvous lib group session channel p c).1
    unfolding rendezvous fill_slot
    rendezvous-Grown channel (err e, host) = on_host-Grown host
    rendezvous-Grown channel (ok conn, host) =
        let inside = h.inside group session known in
        let filled = fill_slot-Grown session.connection conn (record c { host = host }) inside h in
        Grown-trans (on_host-Grown host) (
          Grown-trans filled (
            exchanged-Grown group session
              (fill_slot lib session.connection conn (record c { host = host })) known filled.linked
              (receive_exchange channel)
              (filling-Filled c.provider c.slots session.connection conn inside)))

    fresh_session-Grown :
        (addrs : IoResult (List SocketAddr)) (dialed : IoResult Channel)
        → Grown c (fresh_session lib group session addrs dialed c).1
    unfolding fresh_session
    fresh_session-Grown addrs (err e) = unmoved c h
    fresh_session-Grown addrs (ok channel) = joined (join_group group channel)
      where
        joined :
            (p : IoResult (Unit {0}) × Channel) → Grown c (after_join lib group session addrs p c).1
        joined (err e, k) = unfold after_join in unmoved c h
        joined (ok t, k) = unfold after_join in rendezvous-Grown k (connect lib addrs c.host)

    update_session-Grown :
        (dialed : IoResult Stream) (addrs : IoResult (List SocketAddr)) (o : Option Channel)
        → session.channel ≡ o
        → Grown c (update_session lib group dialed addrs session o c).1
    unfolding update_session
    update_session-Grown dialed addrs none e = fresh_session-Grown addrs (dial dialed)
    update_session-Grown dialed addrs (some channel) e =
        refreshed-Grown group session c known h (refresh channel)
          (h.opened group session channel known e)

  pub update_group-Grown :
      (group : ℕ) (dialed : IoResult Stream) (addrs : IoResult (List SocketAddr)) (c : Client lib)
      → IsReader c
      → Grown c (update_group lib group dialed addrs c).1
  unfolding update_group session_of set_channel
  update_group-Grown group dialed addrs c h =
      elim (Option-cases (Map.get group c.provider.sessions)) [
        | inr (session, e) ↦
            rw (e, session_of)
              (update_session-Grown group session c e h dialed addrs session.channel refl)
        | inl e ↦ rw (e, session_of) (fresh e)
      ]
    where
      fresh :
          Map.get group c.provider.sessions ≡ none
          → Grown c
              (update_session lib group dialed addrs
                (record { channel = none; connection = length c.slots })
                none
                (set_channel lib group
                  (record { channel = none; connection = length c.slots })
                  none
                  (record c { slots = c.slots ++ (none ∷ []) }))).1
      fresh e =
          let linked = new-IsLinked c.provider c.slots group e h in
          let added : Grown c (record c {
            provider = with_session c.provider c.slots group e;
            slots = with_cell c.provider c.slots group e;
          }) =
            record { linked = linked; extends = new-Extends c.provider c.slots group e } in
          Grown-trans added (
            update_session-Grown group (new_session c.provider c.slots group e)
              (record c {
                provider = with_session c.provider c.slots group e;
                slots = with_cell c.provider c.slots group e;
              })
              (get-insert_self group _ c.provider.sessions) linked dialed addrs none refl)
