-- ===== src/Provider/Borrowing.antt =====
-- Handles and their buffers: a handle always gets the buffer that it was made for, at its type.
use rdmalib.Base.{ℕ, zero, suc, ◌≡◌, some, List, get_elem?, set}
use rdmalib.Base.Io.{IoResult, ok, err, panicked}
use rdmalib.Base.Map.{nat_key}
use rdmalib.Meta.Message.{Str}
use rdmalib.Provider.State.{Vector, Provider}
use rdmalib.Provider.Buffers.{
  Borrow, shared, exclusive, Cell, Handle, Application, share, borrow, borrow_mut, end_borrow,
}

-- The handle's cell holds the buffer, at the handle's type.
pub record Fits (s : Application) (h : Handle) (buffer : Vector) : Type 0 where
  pub cell : Cell
  pub at : get_elem? s.cells h.owner ≡ some cell
  pub type_id : cell.type_id ≡ h.view
  pub vector : cell.vector ≡ buffer

-- Something that the application does: it shares a buffer, borrows one, or ends a borrow.
pub data Step (s : Application) : Application → Type 0 where
  shares : (name : Str) (type_id : ℕ) (buffer : Vector) → Step s (share name type_id buffer s).1
  borrows : (h : Handle) → Step s (borrow h s).1
  borrows_mut : (h : Handle) → Step s (borrow_mut h s).1
  releases : (owner : ℕ) → Step s (end_borrow owner s)

pub data Reach (s : Application) : Application → Type 0 where
  here : Reach s s
  next : {t u : Application} → Reach s t → Step t u → Reach s u

-- The cells keep their boxes.
record SameBox (cells : List Cell) (i : ℕ) (old : Cell) : Type 0 where
  cell : Cell
  at : get_elem? cells i ≡ some cell
  type_id : cell.type_id ≡ old.type_id
  vector : cell.vector ≡ old.vector

abbrev Keeps : Application → Application → Type 0
Keeps s t = (i : ℕ) (cell : Cell) → get_elem? s.cells i ≡ some cell → SameBox t.cells i cell

-- What a shared and an exclusive borrow give, by the state of the handle's cell.
abbrev pub lent : Application → Handle → Cell → Vector → Borrow → IoResult Vector × Application
lent s h cell buffer exclusive = (err panicked, s)
lent s h cell buffer (shared n) =
    (ok buffer, record s { cells = set s.cells h.owner (record cell { borrow = shared (suc n) }) })

abbrev pub lent_mut : Application → Handle → Cell → Vector → Borrow → IoResult Vector × Application
lent_mut s h cell buffer (shared zero) =
    (ok buffer, record s { cells = set s.cells h.owner (record cell { borrow = exclusive }) })
lent_mut s h cell buffer (shared (suc n)) = (err panicked, s)
lent_mut s h cell buffer exclusive = (err panicked, s)
