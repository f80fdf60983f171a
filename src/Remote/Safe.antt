-- ===== src/Remote/Safe.antt =====
-- src/pod.rs: the types that the library itself declares `RemoteSafe`: integers, floats, and arrays of
-- such types, with the sizes and alignments of a 64-bit target.
use native.Mathlib.Nat.{mul_assoc}
use rdmalib.Base.{ℕ, ◌*◌, refl, sym, ap, ◌∙◌}
use rdmalib.Meta.Message.{Str}
use rdmalib.Remote.Pod.{Layout}
use rdmalib.Remote.Bounds.{IsLayout}

pub data RemoteSafe : Type 0 where
  u8_type u16_type u32_type u64_type u128_type usize_type : RemoteSafe
  i8_type i16_type i32_type i64_type i128_type isize_type : RemoteSafe
  f32_type f64_type : RemoteSafe
  array_type : RemoteSafe → ℕ → RemoteSafe

-- The scalars are as aligned as they are long.
abbrev scalar_size : RemoteSafe → ℕ
scalar_size u8_type = 1
scalar_size u16_type = 2
scalar_size u32_type = 4
scalar_size u64_type = 8
scalar_size u128_type = 16
scalar_size usize_type = 8
scalar_size i8_type = 1
scalar_size i16_type = 2
scalar_size i32_type = 4
scalar_size i64_type = 8
scalar_size i128_type = 16
scalar_size isize_type = 8
scalar_size f32_type = 4
scalar_size f64_type = 8
scalar_size (array_type t n) = 0

-- `size_of`
abbrev pub size_of : RemoteSafe → ℕ
size_of (array_type t n) = n * size_of t
size_of t = scalar_size t

-- `align_of`
abbrev pub align_of : RemoteSafe → ℕ
align_of (array_type t n) = align_of t
align_of t = scalar_size t

-- `type_name` is the compiler's.
abbrev pub layout_of : (RemoteSafe → Str) → RemoteSafe → Layout
layout_of type_name t = record { size = size_of t; align = align_of t; name = type_name t }

pub layout_of-IsLayout :
    (type_name : RemoteSafe → Str) (t : RemoteSafe) → IsLayout (layout_of type_name t)
layout_of-IsLayout type_name (array_type t n) =
    let elem = layout_of-IsLayout type_name t in
    record {
      stride = n * elem.stride;
      sized = ap (λ k. n * k) elem.sized ∙ sym (mul_assoc n elem.stride (align_of t));
    }
layout_of-IsLayout type_name u8_type = record { stride = 1; sized = refl }
layout_of-IsLayout type_name u16_type = record { stride = 1; sized = refl }
layout_of-IsLayout type_name u32_type = record { stride = 1; sized = refl }
layout_of-IsLayout type_name u64_type = record { stride = 1; sized = refl }
layout_of-IsLayout type_name u128_type = record { stride = 1; sized = refl }
layout_of-IsLayout type_name usize_type = record { stride = 1; sized = refl }
layout_of-IsLayout type_name i8_type = record { stride = 1; sized = refl }
layout_of-IsLayout type_name i16_type = record { stride = 1; sized = refl }
layout_of-IsLayout type_name i32_type = record { stride = 1; sized = refl }
layout_of-IsLayout type_name i64_type = record { stride = 1; sized = refl }
layout_of-IsLayout type_name i128_type = record { stride = 1; sized = refl }
layout_of-IsLayout type_name isize_type = record { stride = 1; sized = refl }
layout_of-IsLayout type_name f32_type = record { stride = 1; sized = refl }
layout_of-IsLayout type_name f64_type = record { stride = 1; sized = refl }
