-- ===== src/Exchange/Halves.antt =====
-- The two halves of a rendezvous: the provider's handshake, and the reader's first update.
use rdmalib.Base.{ℕ, ◌≡◌, refl, ap, ◌∙◌, Option, none, List, [], ◌∷◌, ◌++◌, append_assoc, length}
use rdmalib.Base.Io.{IoResult, ErrorKind, ok}
use rdmalib.Base.Map.{get, nat_key, pair_key, list_key}
use rdmalib.Base.Words.{IsU32}
use rdmalib.Meta.Message.{Message, welcome, protocol_version}
use rdmalib.Meta.Encode.{encode}
use rdmalib.Meta.Frame.{Channel}
use rdmalib.Rdma.Calls.{Library, Host}
use rdmalib.Rdma.OneSided.{Connection}
use rdmalib.Rdma.Connect.{SocketAddr, Listener, connect}
use rdmalib.Provider.State.{Sharing, catalog_and_tuples}
use rdmalib.Provider.Service.{accept_reader, serve_joined, serve_greeted, serve_channel, handshake}
use rdmalib.Remote.Client.{GroupSession, receive_exchange}
use rdmalib.Remote.Session.{
  dial, Client, set_channel, session_of, fill_slot, exchanged, rendezvous, after_join,
  fresh_session, update_session, update_group,
}
use rdmalib.Exchange.Greeting.{
  clear, link, asked, open_channel-clear, send_exchange-link, greet-link, join_group-link,
}

-- What the provider says to a reader that joins.
abbrev pub replied : Message × Message → List ℕ
replied (first, second) = encode (welcome protocol_version) ++ (encode first ++ encode second)

-- The provider's half.
module _ (lib : Library) (l : Listener) (group : ℕ) (fault : ErrorKind) (s : Sharing lib) where
  pub handshake-link :
      (rest out : List ℕ) {s₁ : Sharing lib}
      → IsU32 group
      → accept_reader lib l group s ≡ (ok tt, s₁)
      → handshake lib l (clear (asked group ++ rest) fault out) s ≡ (
        ok (group, link rest fault (out ++ replied (catalog_and_tuples lib group s₁).0)),
        (catalog_and_tuples lib group s₁).1,
      )
  unfolding handshake serve_channel serve_greeted serve_joined
  handshake-link rest out {s₁ = s₁} fits accepted =
      rw (open_channel-clear fault (asked group ++ rest) out) (
        rw (greet-link fault group rest out fits) (
          rw accepted (
            rw (send_exchange-link fault catalog descs rest welcomed, serve_joined)
              (ap
                  (λ (p : IoResult (Unit {0}) × Channel).
                    (ok (group, p.1), (catalog_and_tuples lib group s₁).1))
                  (send_exchange-link fault catalog descs rest welcomed)
                ∙ ap
                    (λ (o : List ℕ).
                      (ok (group, link rest fault o), (catalog_and_tuples lib group s₁).1))
                    bytes))))
    where
      welcomed : List ℕ
      welcomed = out ++ encode (welcome protocol_version)

      catalog : Message
      catalog = (catalog_and_tuples lib group s₁).0.0

      descs : Message
      descs = (catalog_and_tuples lib group s₁).0.1

      bytes :
          (welcomed ++ encode catalog) ++ encode descs
          ≡ out ++ (encode (welcome protocol_version) ++ (encode catalog ++ encode descs))
      bytes =
          append_assoc welcomed (encode catalog) (encode descs)
          ∙ append_assoc out (encode (welcome protocol_version)) (encode catalog ++ encode descs)

-- The reader's half.
module _ (lib : Library) (group : ℕ) (fault : ErrorKind) (addrs : IoResult (List SocketAddr))
    (c : Client lib) where
  -- The session that the update makes, and the client with its connection.
  abbrev pub made : Option Channel → GroupSession
  made channel = record { channel = channel; connection = length c.slots }

  abbrev pub connected : Connection → Host lib.World → Client lib
  connected conn h =
      fill_slot lib (length c.slots) conn
        (record (set_channel lib group (made none) none
          (record c { slots = c.slots ++ (none ∷ []) })) { host = h })

  pub update_group-link :
      (rest : List ℕ) {conn : Connection} {h : Host lib.World}
      → get group c.provider.sessions ≡ none
      → connect lib addrs c.host ≡ (ok conn, h)
      → update_group lib group
          (ok (clear (encode (welcome protocol_version) ++ rest) fault []))
          addrs
          c
        ≡ exchanged lib group
            (made none)
            (receive_exchange (link rest fault (asked group)))
            (connected conn h)
  unfolding update_group session_of update_session fresh_session after_join rendezvous dial
      set_channel
  update_group-link rest unknown reached =
      rw (unknown, session_of)
        (rw (open_channel-clear fault (encode (welcome protocol_version) ++ rest) [])
          (rw (join_group-link fault group rest []) (rw reached refl)))
