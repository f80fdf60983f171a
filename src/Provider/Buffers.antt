-- ===== src/Provider/Buffers.antt =====
-- src/providers.rs: the buffers behind their cells, and the handles that `register_typed` returns.
use rdmalib.Base.{
  ℕ, zero, suc, ◌-◌, Option, none, some, List, [], ◌∷◌, ◌++◌, length, get_elem?, set, ◌==◌,
  if◌then◌else◌,
}
use rdmalib.Base.Io.{IoResult, ok, err, panicked}
use rdmalib.Base.Exec.{Exec}
use rdmalib.Meta.Message.{Str}
use rdmalib.Provider.State.{Vector, Provider, register_typed}

-- The borrow state of a `RefCell`: how many shared borrows are active, or that an exclusive one is.
pub data Borrow : Type 0 where
  shared : ℕ → Borrow
  exclusive : Borrow

-- `Owner`, a `Rc<RefCell<Box<dyn Any>>>`, is the index of its cell. The box knows the type of what it
-- holds, as a `TypeId`.
pub record Cell : Type 0 where
  pub type_id : ℕ
  pub vector : Vector
  pub borrow : Borrow

-- SharedMemoryRegionHandle, at the element type `view`
pub record Handle : Type 0 where
  pub id : ℕ
  pub owner : ℕ
  pub view : ℕ

-- The application's side of the provider.
pub record Application : Type 0 where
  pub provider : Provider
  pub cells : List Cell

-- `downcast_ref::<Vec<T>>`, and its mutable twin
unfoldable pub downcast : ℕ → Cell → Option Vector
downcast view cell = if cell.type_id == view then some cell.vector else none

unfoldable pub handed_out : ℕ → Vector → IoResult ℕ × Provider → Exec Application Handle
handed_out type_id buffer (err e, p) s = (err e, record s { provider = p })
handed_out type_id buffer (ok id, p) s = (
  ok (record { id = id; owner = length s.cells; view = type_id }),
  record {
    provider = p;
    cells = s.cells ++ ((record { type_id = type_id; vector = buffer; borrow = shared 0 }) ∷ []);
  },
)

-- `register_typed`, with the cell and the handle. `type_id` is that of the element type.
unfoldable pub share : Str → ℕ → Vector → Exec Application Handle
share name type_id buffer s = handed_out type_id buffer (register_typed name buffer s.provider) s

unfoldable pub put_cell : ℕ → Cell → Borrow → Application → Application
put_cell owner cell borrow s = record s {
  cells = set s.cells owner (record cell { borrow = borrow });
}

-- `Ref::map`: the borrow is granted, and given back when the downcast fails.
unfoldable pub map_ref : ℕ → Cell → Borrow → Option Vector → Exec Application Vector
unfolding put_cell
map_ref owner cell granted none s = (err panicked, s)
map_ref owner cell granted (some v) s = (ok v, put_cell owner cell granted s)

unfoldable pub try_borrow : Handle → Cell → Borrow → Exec Application Vector
unfolding map_ref downcast
try_borrow h cell exclusive s = (err panicked, s)
try_borrow h cell (shared readers) s =
    map_ref h.owner cell (shared (suc readers)) (downcast h.view cell) s

unfoldable pub try_borrow_mut : Handle → Cell → Borrow → Exec Application Vector
unfolding map_ref downcast
try_borrow_mut h cell (shared zero) s = map_ref h.owner cell exclusive (downcast h.view cell) s
try_borrow_mut h cell _ s = (err panicked, s)

-- `SharedMemoryRegionHandle::borrow`: the slice is that of the vector. An index without a cell stands
-- for no handle at all.
unfoldable pub borrow : Handle → Exec Application Vector
unfolding try_borrow
borrow h s = elim (get_elem? s.cells h.owner) [
  | none ↦ (err panicked, s)
  | some cell ↦ try_borrow h cell cell.borrow s
]

-- `SharedMemoryRegionHandle::borrow_mut`
unfoldable pub borrow_mut : Handle → Exec Application Vector
unfolding try_borrow_mut
borrow_mut h s = elim (get_elem? s.cells h.owner) [
  | none ↦ (err panicked, s)
  | some cell ↦ try_borrow_mut h cell cell.borrow s
]

unfoldable pub ended : Borrow → Borrow
ended (shared readers) = shared (readers - 1)
ended exclusive = shared 0

-- The drop of a `Ref` or of a `RefMut` on the cell.
unfoldable pub end_borrow : ℕ → Application → Application
unfolding put_cell ended
end_borrow owner s = elim (get_elem? s.cells owner) [
  | none ↦ s
  | some cell ↦ put_cell owner cell (ended cell.borrow) s
]
