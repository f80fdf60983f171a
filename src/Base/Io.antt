-- ===== src/Base/Io.antt =====
-- `std::io::Result`: an error is its `ErrorKind`; the message text is not modelled. `panicked` is no
-- `ErrorKind` of the library: it stands for a panic, which ends the call like an error does.
use mathlib.Core.Path.{◌≡◌, refl}
use mathlib.Core.Logic.{◌⊎◌, inl, inr}

pub data ErrorKind : Type 0 where
  invalid_input invalid_data unexpected_eof timed_out would_block unsupported other panicked :
      ErrorKind

pub data IoResult {ℓ} (A : Type ℓ) : Type ℓ where
  ok : A → IoResult A
  err : ErrorKind → IoResult A

pub IoResult-cases {ℓ} :
    {A : Type ℓ} (r : IoResult A) → ((a : A) × (r ≡ ok a)) ⊎ ((e : ErrorKind) × (r ≡ err e))
IoResult-cases (ok a) = inl (a, refl)
IoResult-cases (err e) = inr (e, refl)
