-- ===== src/Remote/Pod.antt =====
-- src/pod.rs: element types and zeroed buffers. A type that may be shared is known to the library by
-- its size, its alignment and its name; memory is known by its address and its size in bytes.
use rdmalib.Base.{ℕ, ◌-◌, ◌*◌, ◌^◌, ltb, if◌then◌else◌}
use rdmalib.Base.Io.{IoResult, ok, err, panicked}
use rdmalib.Meta.Message.{Str}

-- `size_of`, `align_of` and `type_name` of a `RemoteSafe` type
pub record Layout : Type 0 where
  pub size : ℕ
  pub align : ℕ
  pub name : Str

-- A slice: where it starts and how many bytes it has.
pub record Buffer : Type 0 where
  pub addr : ℕ
  pub bytes : ℕ

-- The largest allocation, `isize::MAX` bytes; a `Vec` past it panics.
abbrev pub max_alloc : ℕ
max_alloc = 2 ^ 63 - 1

-- `zeroed_vec` and `vec![0u8; size]`: `addr` is where the allocator puts the buffer.
unfoldable pub zeroed_vec : Layout → ℕ → ℕ → IoResult Buffer
zeroed_vec T len addr =
    if ltb max_alloc (len * T.size)
    then err panicked
    else ok (record { addr = addr; bytes = len * T.size })
