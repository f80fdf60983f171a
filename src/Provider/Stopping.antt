-- ===== src/Provider/Stopping.antt =====
-- The service as a whole: what it accepts before the shutdown is served, and then it ends.
use rdmalib.Base.{ℕ, ◌+◌, ◌-◌, ◌<◌, ◌≡◌, Bool, true, false, List, [], ◌∷◌, ◌++◌, length}
use rdmalib.Base.Io.{IoResult, ok, err}
use rdmalib.Meta.Stream.{Stream}
use rdmalib.Meta.Frame.{Channel}
use rdmalib.Rdma.Calls.{Library}
use rdmalib.Rdma.Connect.{Listener}
use rdmalib.Provider.System.{System, serve_stream}

-- Rounds that all find the shutdown flag set, of the sessions at these indices.
abbrev pub stops : List ℕ → List (ℕ × Bool)
stops [] = []
stops (i ∷ rest) = (i, true) ∷ stops rest

-- Each index is of a session that is left, of this many at first, if each of its rounds ends one; and
-- none is left at the end.
abbrev pub IsOrder : List ℕ → ℕ → Type 0
IsOrder [] left = left ≡ 0
IsOrder (i ∷ rest) left = (i < left) × IsOrder rest (left - 1)

-- A round of the accept loop: the flag, the attempt, and the rounds of the sessions.
abbrev pub Round : Type 0
Round = Bool × IoResult Stream × List (ℕ × Bool)

-- Rounds that all find the flag unset.
abbrev pub unset : List (IoResult Stream) → List Round
unset [] = []
unset (a ∷ rest) = (false, a, []) ∷ unset rest

module _ (lib : Library) where
  -- What a session that ends leaves of the sessions.
  record Ended (before sessions : List (ℕ × Channel)) (y z : System lib) : Type 0 where
    pub rest : List (ℕ × Channel)
    pub fewer : length rest + 1 ≡ length sessions
    pub state : z ≡ record y { sessions = before ++ rest }

  -- The provider after these attempts to accept: the streams that came are served, one by one.
  abbrev pub all_served : Listener → List (IoResult Stream) → System lib → System lib
  all_served l [] y = y
  all_served l (ok stream ∷ rest) y = all_served l rest (serve_stream lib l stream y)
  all_served l (err e ∷ rest) y = all_served l rest y
