-- ===== src/Meta/Reading.antt =====
-- What a parser reads off the front of the rest of the payload: one rule for each way to build one.
use native.Mathlib.Nat.{mod-eq_of_lt}
use rdmalib.Base.{
  subst, ℕ, ◌+◌, ◌-◌, ◌≤◌, ◌<◌, ◌^◌, ◌≡◌, refl, sym, ap, ◌∙◌, List, [], ◌++◌, length, drop,
  take-append, drop_through, length-drop, length-append, le→ltb, arith,
}
use rdmalib.Base.Io.{ok}
use rdmalib.Base.Words.{
  to_le_bytes, from_le_bytes, length-to_le_bytes, from_le_bytes-to_le_bytes, IsU16, IsU32, IsU64,
  as_u32,
}
use rdmalib.Meta.Cursor.{Reader, Parse, ◌>>=◌, pure, take, u16, u32, u64, string, done}
use rdmalib.Meta.Message.{Str}
use rdmalib.Meta.Image.{IsStr}

-- The cursor stands in front of `xs`.
pub record At (r : Reader) (xs : List ℕ) : Type 0 where
  pub within : r.pos ≤ length r.buf
  pub rest : drop r.pos r.buf ≡ xs

-- In front of `xs` the parser returns `a` and leaves the cursor in front of `ys`.
pub record Reads {A : Type 0} (p : Parse A) (xs : List ℕ) (a : A) (ys : List ℕ) : Type 0 where
  pub at : (r : Reader) → At r xs → (r' : Reader) × (p r ≡ ok (a, r')) × At r' ys

pub Reads-pure : {A : Type 0} (a : A) (xs : List ℕ) → Reads (pure a) xs a xs
unfolding pure
Reads-pure a xs = record { at = λ r h. (r, refl, h) }

pub Reads-bind :
    {A B : Type 0} {p : Parse A} (f : A → Parse B) {xs ys zs : List ℕ} {a : A} {b : B}
    → Reads p xs a ys
    → Reads (f a) ys b zs
    → Reads (p >>= f) xs b zs
unfolding ◌>>=◌
Reads-bind f hp hf = record {
  at = λ r h.
      let (r', e, h') = hp.at r h in
      let (r'', e', h'') = hf.at r' h' in (r'', rw (e, ◌>>=◌) e', h'');
}

pub At-length : {r : Reader} {xs : List ℕ} → At r xs → length r.buf - r.pos ≡ length xs
At-length {r} h = sym (length-drop r.pos r.buf) ∙ ap length h.rest

pub Reads-take : (bs ys : List ℕ) → Reads (take (length bs)) (bs ++ ys) bs ys
unfolding take
Reads-take bs ys = record {
  at = λ r h.
      let room : length r.buf - r.pos ≡ length bs + length ys = At-length h ∙ length-append bs ys in
      (
        record r { pos = r.pos + length bs },
        rw (le→ltb (length r.buf - r.pos) (length bs) (omega arith), h.rest, take-append),
        record { within = omega arith; rest = drop_through r.pos bs ys r.buf h.rest },
      );
}

pub Reads-word :
    (w v : ℕ) (ys : List ℕ)
    → v < 256 ^ w
    → Reads (take w >>= λ bytes. pure (from_le_bytes bytes)) (to_le_bytes w v ++ ys) v ys
Reads-word w v ys h =
    Reads-bind _
      (subst (λ k. Reads (take k) (to_le_bytes w v ++ ys) (to_le_bytes w v) ys)
        (length-to_le_bytes w v) (Reads-take (to_le_bytes w v) ys))
      (rw (from_le_bytes-to_le_bytes w v h) (Reads-pure v ys))

pub Reads-u16 : (v : ℕ) (ys : List ℕ) → IsU16 v → Reads u16 (to_le_bytes 2 v ++ ys) v ys
unfolding u16
Reads-u16 v ys h = Reads-word 2 v ys h

pub Reads-u32 : (v : ℕ) (ys : List ℕ) → IsU32 v → Reads u32 (to_le_bytes 4 v ++ ys) v ys
unfolding u32
Reads-u32 v ys h = Reads-word 4 v ys h

pub Reads-u64 : (v : ℕ) (ys : List ℕ) → IsU64 v → Reads u64 (to_le_bytes 8 v ++ ys) v ys
unfolding u64
Reads-u64 v ys h = Reads-word 8 v ys h

pub Reads-string :
    (s : Str) (ys : List ℕ)
    → IsStr s
    → Reads string (to_le_bytes 4 (as_u32 (length s)) ++ (s ++ ys)) s ys
unfolding string
Reads-string s ys h = rw (mod-eq_of_lt h.short) (
    Reads-bind _ (Reads-u32 (length s) (s ++ ys) h.short)
      (Reads-bind _ (Reads-take s ys) (rw h.utf8 (Reads-pure s ys))))

-- The cursor stands in front of nothing exactly when the payload is consumed.
pub done-at_end : (r : Reader) → At r [] → done r ≡ ok tt
unfolding done
done-at_end r h = ground (arith, At-length h)
