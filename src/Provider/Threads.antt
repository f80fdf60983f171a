-- ===== src/Provider/Threads.antt =====
-- src/providers.rs: the provider's threads, lock by lock and in any order. The application and the
-- sessions look tuples up, each in a thread of its own; the service accepts one reader at a time; the
-- application registers regions.
use rdmalib.Base.{ℕ, ◌+◌, ◌^◌, ◌<◌, ◌≡◌, refl, Option, none, ◌==◌, if◌then◌else◌}
use rdmalib.Base.Io.{IoResult, ok, err}
use rdmalib.Base.Map.{get, nat_key}
use rdmalib.Meta.Message.{Str}
use rdmalib.Rdma.Calls.{Library, Host}
use rdmalib.Rdma.Domain.{ProtectionDomain}
use rdmalib.Rdma.OneSided.{Connection}
use rdmalib.Rdma.Connect.{Listener, accept_impl}
use rdmalib.Provider.State.{Vector, Provider, Sharing, new, register_typed}
use rdmalib.Provider.Service.{group_pd, entry_with, put_group, join, accept_reader}
use rdmalib.Provider.Phases.{Phase, at_tuples, finished, Answered, step}

-- Where the service is in the rendezvous of `handshake`: before it reads the group's domain, before it
-- accepts, and before it puts the connection into the group.
pub data Rendezvous : Type 0 where
  waiting : Rendezvous
  at_domain : ℕ → Rendezvous
  at_accept : ℕ → Option ProtectionDomain → Rendezvous
  at_join : ℕ → Connection → Rendezvous

unfoldable pub from_accept : ℕ → IoResult Connection → Rendezvous
from_accept group (err e) = waiting
from_accept group (ok conn) = at_join group conn

-- A thread that looks up one tuple after another: the one it is at, and where it is.
pub record Thread : Type 0 where
  pub id : ℕ
  pub group : ℕ
  pub phase : Phase

abbrev pub placed : (ℕ → Thread) → ℕ → Thread → ℕ → Thread
placed threads i t j = if i == j then t else threads j

module _ (lib : Library) where
  -- One step of the service. No lock is held while it accepts.
  unfoldable pub accept_step : Listener → Rendezvous → Sharing lib → Rendezvous × Sharing lib
  unfolding from_accept
  accept_step l waiting s = (waiting, s)
  accept_step l (at_domain group) s = (at_accept group (group_pd (get group s.shared.groups)), s)
  accept_step l (at_accept group pd) s =
      let (r, h) = accept_impl lib l pd s.host in (from_accept group r, record s { host = h })
  accept_step l (at_join group conn) s =
      (waiting, (put_group lib group (entry_with (get group s.shared.groups) conn) s).1)

  abbrev pub accept_alone : Listener → Rendezvous × Sharing lib → Rendezvous × Sharing lib
  accept_alone l (r, s) = accept_step l r s

  -- Run by itself, the service's steps leave the state that `accept_reader` does.
  pub accept_steps-accept_reader :
      (l : Listener) (group : ℕ) (s : Sharing lib)
      → accept_alone l (accept_alone l (accept_alone l (at_domain group, s)))
        ≡ (waiting, (accept_reader lib l group s).1)
  unfolding accept_step accept_reader join
  accept_steps-accept_reader l group s =
      ended (accept_impl lib l (group_pd (get group s.shared.groups)) s.host)
    where
      ended :
          (p : IoResult Connection × Host lib.World)
          → accept_alone l (from_accept group p.0, record s { host = p.1 })
            ≡ (waiting, (join lib group p s).1)
      ended (err e, h) = refl
      ended (ok conn, h) = refl

  pub record Crowd : Type 0 where
    pub provider : Provider
    pub host : Host lib.World
    pub threads : ℕ → Thread
    pub service : Rendezvous

  abbrev pub shared_by : Crowd → Sharing lib
  shared_by y = record { shared = y.provider.shared; host = y.host }

  abbrev pub shared_in : Crowd → Sharing lib → Crowd
  shared_in y s = record y { provider = record (y.provider) { shared = s.shared }; host = s.host }

  abbrev pub moved : (y : Crowd) (i : ℕ) → Phase × Sharing lib → Crowd
  moved y i (p, s) = record (shared_in y s) {
    threads = placed y.threads i (record (y.threads i) { phase = p });
  }

  abbrev pub accepted : Crowd → Rendezvous × Sharing lib → Crowd
  accepted y (r, s) = record (shared_in y s) { service = r }

  -- A step of any one thread. A thread that has its answer may begin another look-up, and the service,
  -- when it waits, another rendezvous; the id counter is short of its last value at a registration.
  pub data Turn (y : Crowd) : Crowd → Type 0 where
    registers :
        (name : Str) (buffer : Vector)
        → y.provider.next_id + 1 < 2 ^ 32
        → Turn y (record y { provider = (register_typed name buffer y.provider).1 })
    begins :
        (i id group : ℕ) {r : Answered}
        → (y.threads i).phase ≡ finished r
        → Turn y (record y {
          threads = placed y.threads i (record { id = id; group = group; phase = at_tuples });
        })
    moves :
        (i : ℕ)
        → Turn y (
            moved y i
              (step lib (y.threads i).id (y.threads i).group (y.threads i).phase (shared_by y)))
    greets : (group : ℕ) → y.service ≡ waiting → Turn y (record y { service = at_domain group })
    accepts : (l : Listener) → Turn y (accepted y (accept_step l y.service (shared_by y)))

  pub data Course (y : Crowd) : Crowd → Type 0 where
    still : Course y y
    onward : {z w : Crowd} → Course y z → Turn z w → Course y w

  -- A provider that has just been made; no thread has begun.
  abbrev pub begun : Host lib.World → Crowd
  begun h = record {
    provider = new;
    host = h;
    threads = λ i. record { id = 0; group = 0; phase = finished (ok none) };
    service = waiting;
  }
