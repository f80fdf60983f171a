-- ===== src/Meta/Cursor.antt =====
-- src/meta.rs: `Reader`, the cursor over a received payload.
use rdmalib.Base.{ℕ, ◌+◌, ◌-◌, List, length, drop, take as list_take, ltb, ◌==◌, if◌then◌else◌}
use rdmalib.Base.Io.{IoResult, ok, err, invalid_data}
use rdmalib.Base.Words.{from_le_bytes}
use rdmalib.Meta.Message.{Str}
use rdmalib.Meta.Utf8.{is_utf8}

pub record Reader : Type 0 where
  pub buf : List ℕ
  pub pos : ℕ

-- A method that moves the cursor and may fail; a failure ends the decoding.
abbrev pub Parse : Type 0 → Type 0
Parse A = Reader → IoResult (A × Reader)

infixl 5 ◌>>=◌
unfoldable pub ◌>>=◌ : {A B : Type 0} → Parse A → (A → Parse B) → Parse B
◌>>=◌ m f r = elim (m r) [ ok (a, r') ↦ f a r' | err e ↦ err e ]

unfoldable pub pure : {A : Type 0} → A → Parse A
pure a r = ok (a, r)

unfoldable pub raise : {A : Type 0} → Parse A
raise r = err invalid_data

unfoldable pub take : ℕ → Parse (List ℕ)
take len r =
    if ltb (length r.buf - r.pos) len
    then err invalid_data
    else ok (list_take len (drop r.pos r.buf), record r { pos = r.pos + len })

unfoldable pub u16 : Parse ℕ
u16 = do bytes ← take 2; pure (from_le_bytes bytes)

unfoldable pub u32 : Parse ℕ
u32 = do bytes ← take 4; pure (from_le_bytes bytes)

unfoldable pub u64 : Parse ℕ
u64 = do bytes ← take 8; pure (from_le_bytes bytes)

unfoldable pub string : Parse Str
string = do len ← u32; bytes ← take len; if is_utf8 bytes then pure bytes else raise

unfoldable pub done : Reader → IoResult (Unit {0})
done r = if r.pos == length r.buf then ok tt else err invalid_data
