-- ===== src/Provider/Service.antt =====
-- src/providers.rs: one reader's session, `handshake` and `wait_for_updates`.
use rdmalib.Base.{
  ℕ, Option, none, some, Bool, true, false, List, [], ◌∷◌, ◌++◌, ◌==◌, if◌then◌else◌,
}
use rdmalib.Base.Io.{IoResult, ok, err, other}
use rdmalib.Base.Exec.{Exec, ◌>>=◌, ◌>>◌, lift}
use rdmalib.Base.Map.{get, insert, nat_key}
use rdmalib.Meta.Message.{Message, hello, welcome, want_group, update, protocol_version}
use rdmalib.Meta.Stream.{Stream}
use rdmalib.Meta.Frame.{Channel, open_channel, send, receive}
use rdmalib.Rdma.Calls.{Library, Host}
use rdmalib.Rdma.Domain.{ProtectionDomain}
use rdmalib.Rdma.OneSided.{Connection, expect}
use rdmalib.Rdma.Connect.{Listener, accept_impl}
use rdmalib.Provider.State.{GroupEntry, Sharing, catalog_and_tuples}

-- The reply to a greeting of our version, and the refusal of anything else.
unfoldable pub greeting : Message → IoResult (Unit {0})
greeting (hello version) = if version == protocol_version then ok tt else err other
greeting _ = err other

unfoldable pub wanted_group : Message → IoResult ℕ
wanted_group (want_group group) = ok group
wanted_group _ = err other

-- `handshake` up to the group join.
unfoldable pub greet : Exec Channel ℕ
greet = do
  first ← receive
  lift (greeting first)
  send (welcome protocol_version)
  second ← receive
  lift (wanted_group second)

unfoldable pub group_pd : Option GroupEntry → Option ProtectionDomain
group_pd none = none
group_pd (some entry) = some entry.pd

-- The group's entry with one more connection; a new group has the connection's domain.
unfoldable pub entry_with : Option GroupEntry → Connection → IoResult GroupEntry
unfolding expect
entry_with (some entry) conn = ok (record entry { connections = entry.connections ++ (conn ∷ []) })
entry_with none conn = elim (expect conn.pd) [
  | ok pd ↦ ok (record { pd = pd; connections = conn ∷ [] })
  | err e ↦ err e
]

unfoldable pub send_exchange : Message × Message → Exec Channel (Unit {0})
send_exchange (catalog, descs) = do send catalog; send descs

module _ (lib : Library) where
  unfoldable pub put_group : ℕ → IoResult GroupEntry → Exec (Sharing lib) (Unit {0})
  put_group group (err e) s = (err e, s)
  put_group group (ok entry) s = (
    ok tt,
    record s { shared = record (s.shared) { groups = insert group entry s.shared.groups } },
  )

  unfoldable pub join : ℕ → IoResult Connection × Host lib.World → Exec (Sharing lib) (Unit {0})
  join group (err e, h) s = (err e, record s { host = h })
  join group (ok conn, h) s =
      put_group group (entry_with (get group s.shared.groups) conn) (record s { host = h })

  -- The rendezvous: the reader's connection is accepted into the group's domain.
  unfoldable pub accept_reader : Listener → ℕ → Exec (Sharing lib) (Unit {0})
  accept_reader l group s =
      join group (accept_impl lib l (group_pd (get group s.shared.groups)) s.host) s

  -- What the service sends once the reader has joined; the channel then goes to its own thread.
  unfoldable pub serve_joined :
      ℕ → Channel → IoResult (Unit {0}) × Sharing lib → IoResult (ℕ × Channel) × Sharing lib
  serve_joined group channel (err e, s) = (err e, s)
  serve_joined group channel (ok _, s) =
      let (exchange, s') = catalog_and_tuples lib group s in
      let (sent, channel') = send_exchange exchange channel in
      elim sent [ ok _ ↦ (ok (group, channel'), s') | err e ↦ (err e, s') ]

  unfoldable pub serve_greeted : Listener → IoResult ℕ × Channel → Exec (Sharing lib) (ℕ × Channel)
  serve_greeted l (err e, channel) s = (err e, s)
  serve_greeted l (ok group, channel) s = serve_joined group channel (accept_reader l group s)

  unfoldable pub serve_channel : Listener → IoResult Channel → Exec (Sharing lib) (ℕ × Channel)
  serve_channel l (err e) s = (err e, s)
  serve_channel l (ok channel) s = serve_greeted l (greet channel) s

  -- `handshake`: the session that is then started, with its group and its channel.
  unfoldable pub handshake : Listener → Stream → Exec (Sharing lib) (ℕ × Channel)
  handshake l stream = serve_channel l (open_channel stream).0

  -- One round of `wait_for_updates`: whether the session goes on.
  unfoldable pub answer_update :
      ℕ → IoResult Message × Channel → Sharing lib → Bool × Channel × Sharing lib
  answer_update group (ok update, channel) s =
      let (exchange, s') = catalog_and_tuples lib group s in
      let (sent, channel') = send_exchange exchange channel in
      elim sent [ ok _ ↦ (true, channel', s') | err e ↦ (false, channel', s') ]
  answer_update group (_, channel) s = (false, channel, s)

  unfoldable pub next_round : ℕ → Bool → Channel → Sharing lib → Bool × Channel × Sharing lib
  next_round group true channel s = (false, channel, s)
  next_round group false channel s = answer_update group (receive channel) s

  -- `wait_for_updates`: `flags` is what each round finds the shutdown flag at, and `none` is a loop
  -- that goes on past them.
  unfoldable pub wait_for_updates :
      ℕ → List Bool → Channel → Sharing lib → Option (Channel × Sharing lib)
  wait_for_updates group [] channel s = none
  wait_for_updates group (shutdown ∷ flags) channel s =
      let (more, channel', s') = next_round group shutdown channel s in
      elim more [ true ↦ wait_for_updates group flags channel' s' | false ↦ some (channel', s') ]
