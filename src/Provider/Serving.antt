-- ===== src/Provider/Serving.antt =====
-- src/providers.rs: `serve`, the accept loop of `Service::run`, and the drop of the provider.
use rdmalib.Base.{
  ℕ, zero, suc, ◌++◌, Bool, true, false, Option, none, some, List, [], ◌∷◌, if◌then◌else◌,
}
use rdmalib.Base.Io.{IoResult, ok, err, invalid_input}
use rdmalib.Base.Exec.{Exec}
use rdmalib.Base.Map.{Map}
use rdmalib.Meta.Stream.{Stream}
use rdmalib.Meta.Frame.{Channel}
use rdmalib.Rdma.Calls.{Library, Host}
use rdmalib.Rdma.Domain.{MemoryRegion, drop_region}
use rdmalib.Rdma.OneSided.{Connection}
use rdmalib.Rdma.Connect.{v4, Listener, bind, release, drop_connection, drop_listener}
use rdmalib.Provider.State.{GroupEntry}
use rdmalib.Provider.System.{System, serve_stream, serve_round}

-- SharedMemoryRegionProviderAddr
pub record Addr : Type 0 where
  pub rdma_port : ℕ
  pub tcp_port : ℕ

module _ (lib : Library) where
  abbrev pub is_last : {A : Type 0} → List A → Bool
  is_last [] = true
  is_last (x ∷ xs) = false

  unfoldable pub start_service : IoResult Listener × Host lib.World → Exec (System lib) Listener
  start_service (err e, h) y = (err e, record y { host = h })
  start_service (ok l, h) y =
      (ok l, record y { host = h; provider = record (y.provider) { service = true } })

  unfoldable pub serve_bound : Addr → IoResult (Unit {0}) → Exec (System lib) Listener
  serve_bound addr (err e) y = (err e, y)
  serve_bound addr (ok t) y =
      start_service (bind lib (ok (v4 (0 ∷ 0 ∷ 0 ∷ 0 ∷ []) addr.rdma_port ∷ [])) y.host) y

  -- `serve`: `tcp` is what `TcpListener::bind` answers. The result is the listener that the service's
  -- thread runs with.
  unfoldable pub serve : Addr → IoResult (Unit {0}) → Exec (System lib) Listener
  serve addr tcp y = if y.provider.service then (err invalid_input, y) else serve_bound addr tcp y

  -- What an attempt to accept makes of the state; after one that fails the thread sleeps.
  unfoldable pub attend : Listener → IoResult Stream → System lib → System lib
  attend l (ok stream) y = serve_stream lib l stream y
  attend l (err e) y = y

  -- A round of the session at an index, if there is one.
  unfoldable pub serve_at :
      List (ℕ × Channel) → List (ℕ × Channel) → ℕ → Bool → System lib → System lib
  serve_at before [] i shutdown y = y
  serve_at before (session ∷ after) zero shutdown y =
      serve_round lib before session after shutdown y
  serve_at before (session ∷ after) (suc i) shutdown y =
      serve_at (before ++ (session ∷ [])) after i shutdown y

  -- Rounds of the session threads, in the order in which they run: the index of the session, and what
  -- the round finds the shutdown flag at.
  unfoldable pub serve_rounds : List (ℕ × Bool) → System lib → System lib
  serve_rounds [] y = y
  serve_rounds ((i, shutdown) ∷ rest) y = serve_rounds rest (serve_at [] y.sessions i shutdown y)

  -- The join of the sessions after the loop: it waits until the rounds that the sessions still take
  -- have ended the last of them. `none` is a wait that goes on past the list.
  unfoldable pub join_sessions : List (ℕ × Bool) → System lib → Option (System lib)
  join_sessions rounds y =
      let after = serve_rounds rounds y in if is_last after.sessions then some after else none

  -- `Service::run`. Of each round of its loop the list says what it finds the shutdown flag at, what
  -- its attempt to accept gives, and which rounds of the sessions run before the next one; `last` are
  -- the rounds of the sessions that run while they are joined. `none` is a loop that goes on past the
  -- list.
  unfoldable pub run :
      Listener
      → List (Bool × IoResult Stream × List (ℕ × Bool))
      → List (ℕ × Bool)
      → System lib
      → Option (System lib)
  run l [] last y = none
  run l ((shutdown, accepted, rounds) ∷ rest) last y =
      let after = run l rest last (serve_rounds rounds (attend l accepted y)) in
      if shutdown then join_sessions last y else after

  -- `self.shared.tuples.lock().unwrap().clear()`
  unfoldable pub drop_tuples : Map (ℕ × ℕ) MemoryRegion → Host lib.World → Host lib.World
  drop_tuples [] h = h
  drop_tuples ((key, mr) ∷ rest) h = drop_tuples rest (drop_region lib mr h).1

  -- The connections of a group share its domain; the drop of the last one deallocates it.
  unfoldable pub drop_connections : List Connection → Host lib.World → Host lib.World
  drop_connections [] h = h
  drop_connections (c ∷ rest) h = drop_connections rest (drop_connection lib (is_last rest) c h).1

  -- A `GroupEntry`: the handle of its domain, then its connections.
  unfoldable pub drop_groups : Map ℕ GroupEntry → Host lib.World → Host lib.World
  drop_groups [] h = h
  drop_groups ((group, entry) ∷ rest) h =
      drop_groups rest
        (drop_connections entry.connections (release lib (is_last entry.connections) entry.pd h).1)

  unfoldable pub drop_service : Option Listener → Host lib.World → Host lib.World
  drop_service none h = h
  drop_service (some l) h = (drop_listener lib l h).1

  -- `Drop for SharedMemoryRegionProvider` and the drop of its fields. `listener` is that of the
  -- service, if one runs; the service's thread has ended, and drops it before it is joined.
  unfoldable pub drop_provider : Option Listener → System lib → Host lib.World
  drop_provider listener y =
      drop_groups y.provider.shared.groups
        (drop_tuples y.provider.shared.tuples (drop_service listener y.host))
