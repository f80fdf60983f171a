-- ===== src/Exchange/Rendezvous.antt =====
-- A reader's first update of a group against the provider's handshake.
use rdmalib.Base.{
  ℕ, ◌≡◌, refl, sym, ap, ◌∙◌, none, some, List, [], ◌++◌, length, get_elem?, get_elem?-set_last,
  subst,
}
use rdmalib.Base.Io.{IoResult, ErrorKind, ok}
use rdmalib.Base.Map.{get, nat_key, pair_key, list_key, Distinct}
use rdmalib.Base.Words.{IsU32}
use rdmalib.Meta.Message.{Str, Message}
use rdmalib.Meta.Encode.{encode}
use rdmalib.Meta.Frame.{Channel}
use rdmalib.Rdma.Calls.{Library, Host}
use rdmalib.Rdma.OneSided.{Connection}
use rdmalib.Rdma.Connect.{SocketAddr, Listener, connect}
use rdmalib.Provider.State.{Sharing, catalog_and_tuples}
use rdmalib.Provider.Sharing.{IsShared}
use rdmalib.Provider.Service.{accept_reader, handshake}
use rdmalib.Remote.Client.{RemoteMemoryProvider, ingest, receive_exchange}
use rdmalib.Remote.Session.{Client, set_channel, ingest_into, fill_slot, exchanged, update_group}
use rdmalib.Exchange.Channels.{IsSendable}
use rdmalib.Exchange.Greeting.{clear, link, asked, send_exchange-link}
use rdmalib.Provider.Sharing.{served}
use rdmalib.Provider.Catalog.{descs_of, catalog_and_tuples_lem}
use rdmalib.Provider.Evolving.{Evolves, accept_reader-Evolves}
use rdmalib.Remote.Ingest.{ingest-ok}
use rdmalib.Base.Map.{get-insert_self}
use rdmalib.Exchange.Delivery.{offer, receive_exchange-delivers}
use rdmalib.Remote.View.{view}
use rdmalib.Exchange.Halves.{replied, handshake-link, made, connected, update_group-link}

-- What the two sides have come to: the provider's session with `group`, whose reader may have said
-- `more`, and the reader's, with its connection, its channel, and what it knows of the group.
pub record Met (there here : Library) (l : Listener) (group : ℕ) (more : List ℕ)
    (fault fault' : ErrorKind) (s s₁ : Sharing there) (conn : Connection) (slot : ℕ)
    (provider : IoResult (ℕ × Channel) × Sharing there) (reader : IoResult (Unit {0}) × Client here)
    : Type 0 where
  pub served : provider ≡ (
    ok (group, link more fault (replied (catalog_and_tuples there group s₁).0)),
    (catalog_and_tuples there group s₁).1,
  )
  pub updated : reader.0 ≡ ok tt
  pub session :
      get group reader.1.provider.sessions
      ≡ some (record { channel = some (link [] fault' (asked group)); connection = slot })
  pub cell : get_elem? reader.1.slots slot ≡ some (some conn)
  pub known :
      (key : Str × ℕ)
      → view reader.1.provider key group
        ≡ offer group (catalog_and_tuples there group s₁).1.shared key

module _ (there here : Library) (l : Listener) (group : ℕ) (fault fault' : ErrorKind)
    (addrs : IoResult (List SocketAddr)) (s s₁ : Sharing there) (c : Client here) where
  -- The two messages, and the reader's bytes to come after the reply to its greeting.
  abbrev exchange : Message × Message
  exchange = (catalog_and_tuples there group s₁).0

  abbrev rest : List ℕ
  rest = encode exchange.0 ++ encode exchange.1

  ingest-exchange :
      (p : RemoteMemoryProvider)
      → Distinct s₁.shared.catalog
      → ((ingest group exchange p).0 ≡ ok tt) × ((ingest group exchange p).1.sessions ≡ p.sessions)
  ingest-exchange p distinct =
      let done =
        ap (λ (m : Message × Message). ingest group m p)
          (catalog_and_tuples_lem there group s₁ distinct)
        ∙ ingest-ok group (descs_of there group s₁.shared.catalog)
            (served group (catalog_and_tuples there group s₁).1.shared.tuples s₁.shared.catalog)
            p in
      (
        ap (λ (r : IoResult (Unit {0}) × RemoteMemoryProvider). r.0) done,
        ap (λ (r : IoResult (Unit {0}) × RemoteMemoryProvider). r.1.sessions) done,
      )

  -- A reader's first update of a group against the provider's handshake, over two connections without
  -- faults. The provider's invariants hold, and no id stands twice in its catalog; the reader has no
  -- session of the group; the provider's stream brings what a reader says (and `more`), the reader's
  -- what the provider replies; the provider accepts the RDMA connection, the reader's connect
  -- succeeds, and the two messages fit the wire. Then the handshake succeeds, with a session of that
  -- group whose channel has sent just that reply; the update succeeds; the reader has a session of
  -- the group with its open channel, nothing left to read, and a cell that holds the connection; and
  -- under every name and id its caches have, in the group, what the provider's state then offers.
  pub update_group-handshake :
      (more : List ℕ) {conn : Connection} {h : Host here.World}
      → IsU32 group
      → IsShared s.shared
      → Distinct s.shared.catalog
      → accept_reader there l group s ≡ (ok tt, s₁)
      → IsSendable (catalog_and_tuples there group s₁).0.0
      → IsSendable (catalog_and_tuples there group s₁).0.1
      → get group c.provider.sessions ≡ none
      → connect here addrs c.host ≡ (ok conn, h)
      → Met there here l group more fault fault' s s₁ conn
          (length c.slots)
          (handshake there l (clear (asked group ++ more) fault []) s)
          (update_group here group
            (ok (clear (replied (catalog_and_tuples there group s₁).0) fault' []))
            addrs
            c)
  unfolding exchanged ingest_into set_channel fill_slot
  update_group-handshake more {conn = conn} {h = h} fits shared distinct accepted first second
        unknown reached =
      record {
        served = handshake-link there l group fault s more [] fits accepted;
        updated = ap (λ r. r.0) after ∙ taken.0;
        session =
            ap (λ (r : IoResult (Unit {0}) × Client here). get group r.1.provider.sessions) after
            ∙ ap (get group) taken.1
            ∙ get-insert_self group _ _;
        cell =
            ap (λ (r : IoResult (Unit {0}) × Client here). get_elem? r.1.slots (length c.slots))
              after
            ∙ get_elem?-set_last c.slots none (some conn);
        known = λ key.
            ap (λ (r : IoResult (Unit {0}) × Client here). view r.1.provider key group) after
            ∙ delivered.1 key;
      }
    where
      joined : Client here
      joined =
          set_channel here group (made here group fault' addrs c none)
            (some (link [] fault' (asked group))) (connected here group fault' addrs c conn h)

      evolved : Evolves s.shared s₁.shared
      evolved =
          subst (λ (r : IoResult (Unit {0}) × Sharing there). Evolves s.shared r.1.shared) accepted
            (accept_reader-Evolves there l group s)

      distinct₁ : Distinct s₁.shared.catalog
      distinct₁ = subst Distinct (sym evolved.catalog) distinct

      taken :
          ((ingest group exchange joined.provider).0 ≡ ok tt)
          × ((ingest group exchange joined.provider).1.sessions ≡ joined.provider.sessions)
      taken = ingest-exchange joined.provider distinct₁

      delivered :
          (receive_exchange (link rest fault' (asked group))
            ≡ (ok exchange, link [] fault' (asked group)))
          × ((key : Str × ℕ)
              → view (ingest group exchange joined.provider).1 key group
                ≡ offer group (catalog_and_tuples there group s₁).1.shared key)
      delivered =
          receive_exchange-delivers there group s₁ (link [] fault [])
            (link rest fault' (asked group)) joined.provider (evolved.shared shared) distinct₁ first
            second (send_exchange-link fault exchange.0 exchange.1 [] []) refl

      after :
          update_group here group (ok (clear (replied exchange) fault' [])) addrs c
          ≡ ingest_into here group exchange joined
      after =
          update_group-link here group fault' addrs c rest unknown reached
          ∙ ap
              (λ r.
                exchanged here group (made here group fault' addrs c none) r
                  (connected here group fault' addrs c conn h))
              delivered.0
