-- ===== src/Provider/System.antt =====
-- The provider at work: registrations, tuples looked up, readers that join, and sessions that answer,
-- in any order. What a step does runs alone; Threads has the steps within a look-up and a rendezvous.
use rdmalib.Base.{ℕ, ◌+◌, ◌^◌, ◌<◌, ◌≡◌, Option, Bool, true, false, List, [], ◌∷◌, ◌++◌}
use rdmalib.Base.Io.{IoResult, ok, err}
use rdmalib.Base.Exec.{Exec}
use rdmalib.Base.Map.{nat_key, pair_key}
use rdmalib.Meta.Message.{Str}
use rdmalib.Meta.Stream.{Stream}
use rdmalib.Meta.Frame.{Channel}
use rdmalib.Rdma.Calls.{Library, Host}
use rdmalib.Rdma.Connect.{Listener}
use rdmalib.Provider.State.{Vector, Provider, Sharing, new, register_typed, tuple_of}
use rdmalib.Provider.Service.{handshake, next_round}

module _ (lib : Library) where
  -- The provider, the host, and the sessions that wait for updates: a group and a channel each.
  pub record System : Type 0 where
    pub provider : Provider
    pub host : Host lib.World
    pub sessions : List (ℕ × Channel)

  abbrev pub sharing : System → Sharing lib
  sharing y = record { shared = y.provider.shared; host = y.host }

  -- The system, with what a thread has made of the shared state and the host.
  abbrev pub sharing_in : System → Sharing lib → System
  sharing_in y s = record y { provider = record (y.provider) { shared = s.shared }; host = s.host }

  -- `get_shared_mr`
  unfoldable pub get_shared_mr : ℕ → ℕ → Exec System (Option (ℕ × ℕ × ℕ))
  get_shared_mr id group y = let (r, s) = tuple_of lib id group (sharing y) in (r, sharing_in y s)

  unfoldable pub register_in : Str → Vector → System → System
  register_in name buffer y = record y { provider = (register_typed name buffer y.provider).1 }

  -- `self.sessions.push(..)`, after a handshake that succeeded.
  abbrev pub push_session : IoResult (ℕ × Channel) → List (ℕ × Channel) → List (ℕ × Channel)
  push_session (ok session) sessions = sessions ++ (session ∷ [])
  push_session (err e) sessions = sessions

  -- The body of the accept loop of `Service::run`, for a stream that was accepted.
  unfoldable pub serve_stream : Listener → Stream → System → System
  serve_stream l stream y =
      let (r, s) = handshake lib l stream (sharing y) in
      record (sharing_in y s) { sessions = push_session r y.sessions }

  abbrev pub session_left : ℕ → Bool → Channel → List (ℕ × Channel)
  session_left group true channel = (group, channel) ∷ []
  session_left group false channel = []

  -- A round of one of the sessions; `retain` drops a session that has ended.
  unfoldable pub serve_round :
      List (ℕ × Channel) → ℕ × Channel → List (ℕ × Channel) → Bool → System → System
  serve_round before (group, channel) after shutdown y =
      let (more, channel', s) = next_round lib group shutdown channel (sharing y) in
      record (sharing_in y s) { sessions = before ++ (session_left group more channel' ++ after) }

  -- A step of the application, of the service or of a session. The id counter is short of its last
  -- value when a region is registered.
  pub data Step (y : System) : System → Type 0 where
    registers :
        (name : Str) (buffer : Vector)
        → y.provider.next_id + 1 < 2 ^ 32
        → Step y (register_in name buffer y)
    looks_up : (id group : ℕ) → Step y (get_shared_mr id group y).1
    serves : (l : Listener) (stream : Stream) → Step y (serve_stream l stream y)
    answers :
        (before : List (ℕ × Channel)) (session : ℕ × Channel) (after : List (ℕ × Channel))
        (shutdown : Bool)
        → y.sessions ≡ before ++ (session ∷ after)
        → Step y (serve_round before session after shutdown y)

  pub data Reach (y : System) : System → Type 0 where
    here : Reach y y
    next : {z w : System} → Reach y z → Step z w → Reach y w

  -- A provider that has just been made, on a host.
  abbrev pub started : Host lib.World → System
  started h = record { provider = new; host = h; sessions = [] }
