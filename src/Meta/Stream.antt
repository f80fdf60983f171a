-- ===== src/Meta/Stream.antt =====
-- A TCP stream as this program uses it, for `std::io::{Read, Write}` and `std::net::TcpStream`.
-- `incoming` is what the peer will have sent by the time that it falls silent or hangs up, and
-- `fault` the error of a read past it. `faults` says how the operating system answers the calls
-- that need its help (a write, a timeout to arm), in their order: no entry is a success.
use rdmalib.Base.{
  ℕ, List, [], ◌∷◌, ◌++◌, Option, none, some, length, take, drop, ltb, if◌then◌else◌,
}
use rdmalib.Base.Io.{IoResult, ok, err, ErrorKind}
use rdmalib.Base.Exec.{Exec}

pub record Stream : Type 0 where
  pub incoming : List ℕ
  pub fault : ErrorKind
  pub outgoing : List ℕ
  pub faults : List (Option ErrorKind)

-- A failing `read_exact` leaves the part of the message that did arrive consumed.
unfoldable pub read_exact : ℕ → Exec Stream (List ℕ)
read_exact n s =
    if ltb (length s.incoming) n
    then (err s.fault, record s { incoming = [] })
    else (ok (take n s.incoming), record s { incoming = drop n s.incoming })

answer : Option ErrorKind → IoResult (Unit {0})
answer none = ok tt
answer (some e) = err e

next_fault : List (Option ErrorKind) → Option ErrorKind
next_fault [] = none
next_fault (f ∷ fs) = f

later_faults : List (Option ErrorKind) → List (Option ErrorKind)
later_faults [] = []
later_faults (f ∷ fs) = fs

-- A call that the operating system answers.
unfoldable pub system_call : Exec Stream (Unit {0})
unfolding answer next_fault later_faults
system_call s = (answer (next_fault s.faults), record s { faults = later_faults s.faults })

deliver : List ℕ → IoResult (Unit {0}) → Stream → Stream
deliver bytes (ok _) s = record s { outgoing = s.outgoing ++ bytes }
deliver bytes (err e) s = s

unfoldable pub write_all : List ℕ → Exec Stream (Unit {0})
unfolding deliver system_call
write_all bytes s = let (r, s') = system_call s in (r, deliver bytes r s')
