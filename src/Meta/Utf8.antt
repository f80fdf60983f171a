-- ===== src/Meta/Utf8.antt =====
-- `std::str::from_utf8`: which byte sequences are UTF-8 (Unicode, table 3-7).
use rdmalib.Base.{
  ℕ, zero, suc, Bool, false, ◌&&◌, List, [], ◌∷◌, Option, none, some, leb, ltb, ◌==◌, if◌then◌else◌,
}

-- How many continuation bytes are still due, and the range of the next one.
abbrev pub Due : Type 0
Due = ℕ × ℕ × ℕ

abbrev pub boundary : Due
boundary = (0, 0x80, 0xbf)

lead : ℕ → Option Due
lead b =
    if ltb b 0x80
    then some boundary
    else if ltb b 0xc2
    then none
    else if ltb b 0xe0
    then some (1, 0x80, 0xbf)
    else if b == 0xe0
    then some (2, 0xa0, 0xbf)
    else if b == 0xed
    then some (2, 0x80, 0x9f)
    else if ltb b 0xf0
    then some (2, 0x80, 0xbf)
    else if b == 0xf0
    then some (3, 0x90, 0xbf)
    else if ltb b 0xf4
    then some (3, 0x80, 0xbf)
    else if b == 0xf4
    then some (3, 0x80, 0x8f)
    else none

next : Due → ℕ → Option Due
next (zero, lo, hi) b = lead b
next (suc n, lo, hi) b = if leb lo b && leb b hi then some (n, 0x80, 0xbf) else none

scan : Option Due → List ℕ → Bool
scan none bs = false
scan (some (n, lo, hi)) [] = n == 0
scan (some due) (b ∷ bs) = scan (next due b) bs

unfoldable pub is_utf8 : List ℕ → Bool
unfolding lead next scan
is_utf8 bs = scan (some boundary) bs
