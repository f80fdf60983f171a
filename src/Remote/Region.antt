-- ===== src/Remote/Region.antt =====
-- src/readers.rs: `GroupConnection` and `RemoteMemoryRegion`.
use rdmalib.Base.{
  ℕ, ◌%◌, Option, none, some, List, [], ◌∷◌, get_elem?, set, ltb, ◌==◌, ◌&&◌, not, if◌then◌else◌,
}
use rdmalib.Base.Io.{IoResult, ok, err, invalid_input, other}
use rdmalib.Base.Words.{as_u32, wrapping_add, saturating_add, saturating_mul}
use rdmalib.Meta.Message.{Str}
use rdmalib.Rdma.Calls.{Library, Host}
use rdmalib.Rdma.Domain.{MemoryRegion, drop_region}
use rdmalib.Rdma.OneSided.{
  Connection, Run, one_sided, ibv_wr_rdma_read, ibv_wr_rdma_write, connection_register_addr,
}
use rdmalib.Remote.Pod.{Layout, Buffer, zeroed_vec}

-- The group connections, each in a cell that a session and its regions share: a `Rc<RefCell<..>>` is
-- the index of its cell.
abbrev pub Slots : Type 0
Slots = List (Option Connection)

pub record RemoteMemoryRegion : Type 0 where
  pub connection : ℕ
  pub remote_addr : ℕ
  pub size : ℕ
  pub rkey : ℕ
  pub group : ℕ
  pub elem_size : ℕ
  pub elem_align : ℕ
  pub elem_type : Str

-- `GroupConnection::get`, through the cell
unfoldable pub get : Slots → ℕ → IoResult Connection
get slots slot = elim (get_elem? slots slot) [
  | none ↦ err other
  | some c ↦ elim c [ none ↦ err other | some conn ↦ ok conn ]
]

unfoldable pub check_elem : Layout → RemoteMemoryRegion → IoResult (Unit {0})
check_elem T region =
    if as_u32 T.size == region.elem_size && as_u32 T.align == region.elem_align
    then ok tt
    else err invalid_input

-- What a transfer is about: its local memory, its remote address and its length.
pub record Transfer : Type 0 where
  pub local_addr : ℕ
  pub remote_addr : ℕ
  pub len : ℕ

-- The guards of `read_into`, and the transfer that passes them.
unfoldable pub plan_read : RemoteMemoryRegion → ℕ → ℕ → Buffer → IoResult Transfer
plan_read region offset size buf =
    if ltb buf.bytes size
    then err invalid_input
    else if ltb region.size (saturating_add offset size)
    then err invalid_input
    else ok (record {
      local_addr = buf.addr;
      remote_addr = wrapping_add region.remote_addr offset;
      len = size;
    })

-- The guards of `write`.
unfoldable pub plan_write : RemoteMemoryRegion → ℕ → Buffer → IoResult Transfer
plan_write region offset buf =
    if ltb region.size (saturating_add offset buf.bytes)
    then err invalid_input
    else ok (record {
      local_addr = buf.addr;
      remote_addr = wrapping_add region.remote_addr offset;
      len = buf.bytes;
    })

-- The guards of `read_into_typed` and `write_typed`, which are the same.
unfoldable pub plan_typed : Layout → RemoteMemoryRegion → ℕ → Buffer → IoResult Transfer
unfolding check_elem
plan_typed T region offset buf = elim (check_elem T region) [
  | err e ↦ err e
  | ok _ ↦
      let byte_offset = saturating_mul offset T.size in
      if ltb region.size (saturating_add byte_offset buf.bytes)
      then err invalid_input
      else if not (wrapping_add region.remote_addr byte_offset % T.align == 0)
      then err invalid_input
      else ok (record {
        local_addr = buf.addr;
        remote_addr = wrapping_add region.remote_addr byte_offset;
        len = buf.bytes;
      })
]

module _ (lib : Library) where
  -- The cells and the host.
  pub record Reader : Type 0 where
    pub slots : Slots
    pub host : Host lib.World

  -- After the registration: the operation, and the region's drop.
  unfoldable pub operate :
      ℕ
      → ℕ
      → Transfer
      → ℕ
      → ℕ
      → Connection
      → IoResult MemoryRegion × Host lib.World
      → Slots
      → Option (IoResult (Unit {0}) × Reader)
  operate fuel opcode t rkey slot conn (err e, h) slots =
      some (err e, record { slots = slots; host = h })
  operate fuel opcode t rkey slot conn (ok mr, h) slots =
      elim (one_sided lib fuel opcode mr t.remote_addr rkey t.len
        (record { conn = conn; host = h })) [
          | none ↦ none
          | some (r, s) ↦ some (
            r,
            record { slots = set slots slot (some s.conn); host = (drop_region lib mr s.host).1 },
          )
        ]

  -- The end of the four operations: connection, registration, transfer.
  unfoldable pub transfer : ℕ → ℕ → RemoteMemoryRegion → IoResult Transfer → Run Reader (Unit {0})
  transfer fuel opcode region (err e) s = some (err e, s)
  transfer fuel opcode region (ok t) s = elim (get s.slots region.connection) [
    | err e ↦ some (err e, s)
    | ok conn ↦
        operate fuel opcode t region.rkey region.connection conn
          (connection_register_addr lib conn t.local_addr t.len s.host) s.slots
  ]

  unfoldable pub read_into : ℕ → RemoteMemoryRegion → ℕ → ℕ → Buffer → Run Reader (Unit {0})
  read_into fuel region offset size buf =
      transfer fuel ibv_wr_rdma_read region (plan_read region offset size buf)

  unfoldable pub write : ℕ → RemoteMemoryRegion → ℕ → Buffer → Run Reader (Unit {0})
  write fuel region offset buf =
      transfer fuel ibv_wr_rdma_write region (plan_write region offset buf)

  unfoldable pub read_into_typed :
      Layout → ℕ → RemoteMemoryRegion → ℕ → Buffer → Run Reader (Unit {0})
  read_into_typed T fuel region offset buf =
      transfer fuel ibv_wr_rdma_read region (plan_typed T region offset buf)

  unfoldable pub write_typed : Layout → ℕ → RemoteMemoryRegion → ℕ → Buffer → Run Reader (Unit {0})
  write_typed T fuel region offset buf =
      transfer fuel ibv_wr_rdma_write region (plan_typed T region offset buf)

  -- The buffer that a read returns, if the read succeeds.
  unfoldable pub filled :
      Buffer → Option (IoResult (Unit {0}) × Reader) → Option (IoResult Buffer × Reader)
  filled buf none = none
  filled buf (some (err e, s)) = some (err e, s)
  filled buf (some (ok _, s)) = some (ok buf, s)

  abbrev byte : Layout
  byte = record { size = 1; align = 1; name = b'u' ∷ b'8' ∷ [] }

  -- `read`: the buffer, at the allocator's `addr`, is made before the bounds are checked.
  unfoldable pub read : ℕ → ℕ → RemoteMemoryRegion → ℕ → ℕ → Run Reader Buffer
  read addr fuel region offset size s = elim (zeroed_vec byte size addr) [
    | err e ↦ some (err e, s)
    | ok buf ↦ filled buf (read_into fuel region offset size buf s)
  ]

  unfoldable pub read_typed : Layout → ℕ → ℕ → RemoteMemoryRegion → ℕ → ℕ → Run Reader Buffer
  read_typed T addr fuel region offset count s = elim (zeroed_vec T count addr) [
    | err e ↦ some (err e, s)
    | ok buf ↦ filled buf (read_into_typed T fuel region offset buf s)
  ]
