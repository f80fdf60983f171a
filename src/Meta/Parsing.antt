-- ===== src/Meta/Parsing.antt =====
-- What a successful parse says of the bytes that it consumed: the converse of Meta/Reading.
use native.Mathlib.Nat.{mod-eq_of_lt}
use rdmalib.Base.{
  ℕ, ◌+◌, ◌-◌, ◌≤◌, ◌<◌, ◌^◌, ◌≡◌, refl, sym, ap, ◌∙◌, subst, true, false, inl, inr, List, [], ◌∷◌,
  ◌++◌, length, All, All-take, All-drop, take as list_take, drop, take-append-drop, drop-add,
  length-take, append-nil, append_assoc, if◌then◌else◌, Bool, Bool-cases, arith,
}
use rdmalib.Base.Io.{IoResult, ok, err}
use rdmalib.Base.Words.{
  IsByte, to_le_bytes, from_le_bytes, from_le_bytes-lt, to_le_bytes-from_le_bytes,
}
use rdmalib.Meta.Cursor.{Reader, Parse, ◌>>=◌, pure, raise, take, u16, u32, u64, string, done}
use rdmalib.Meta.Message.{Str}
use rdmalib.Meta.Utf8.{is_utf8}
use rdmalib.Meta.Image.{IsStr, str_image}
use rdmalib.Meta.Reading.{At, At-length}

-- The cursor stands in front of the bytes `xs`.
pub record Ahead (r : Reader) (xs : List ℕ) : Type 0 where
  pub at : At r xs
  pub bytes : All IsByte xs

-- The parse went from in front of `xs` over `front`, and stands in front of the rest.
length-eq-zero : (xs : List ℕ) → length xs ≡ 0 → xs ≡ []
length-eq-zero [] h = refl
length-eq-zero (x ∷ xs) h = absurd (omega arith)

pub record Passed (xs front : List ℕ) (r : Reader) : Type 0 where
  pub rest : List ℕ
  pub split : xs ≡ front ++ rest
  pub ahead : Ahead r rest

>>=-eq-ok :
    {A B : Type 0} (p : Parse A) (f : A → Parse B) (r : Reader) {r' : Reader} {b : B}
    → (p >>= f) r ≡ ok (b, r')
    → (a : A) × (r₁ : Reader) × (p r ≡ ok (a, r₁)) × (f a r₁ ≡ ok (b, r'))
unfolding ◌>>=◌
>>=-eq-ok {A} {B} p f r {r'} {b} h = go (p r) refl h
  where
    go :
        (m : IoResult (A × Reader))
        → p r ≡ m
        → (elim m [ ok (a, r₁) ↦ f a r₁ | err e ↦ err e ]) ≡ ok (b, r')
        → (a : A) × (r₁ : Reader) × (p r ≡ ok (a, r₁)) × (f a r₁ ≡ ok (b, r'))
    go (ok (a, r₁)) e k = (a, r₁, e, k)
    go (err x) e k = cc

take-eq-ok :
    (len : ℕ) (r : Reader) {bs : List ℕ} {r' : Reader}
    → take len r ≡ ok (bs, r')
    → (len ≤ length r.buf - r.pos)
      × (bs ≡ list_take len (drop r.pos r.buf))
      × (r' ≡ record r { pos = r.pos + len })
unfolding take
take-eq-ok len r e = ground arith

-- A successful run of `p` passes some bytes, which stand in the relation `R` to its result.
pub record Inverts {A : Type 0} (p : Parse A) (R : A → List ℕ → Type 0) : Type 0 where
  pub at :
      (r : Reader) {xs : List ℕ} {a : A} {r' : Reader}
      → Ahead r xs
      → p r ≡ ok (a, r')
      → (front : List ℕ) × Passed xs front r' × R a front

pub Inverts-pure : {A : Type 0} {R : A → List ℕ → Type 0} (a : A) → R a [] → Inverts (pure a) R
unfolding pure
Inverts-pure {R} a h = record {
  at = λ r ahead e.
      let value : a ≡ _ = cc in
      let moved : r ≡ _ = cc in
      (
        [],
        subst (Passed _ []) moved (record { rest = _; split = refl; ahead = ahead }),
        subst (λ b. R b []) value h,
      );
}

pub Inverts-raise : {A : Type 0} {R : A → List ℕ → Type 0} → Inverts raise R
unfolding raise
Inverts-raise = record { at = λ r ahead e. cc }

-- Two stretches passed one after the other are one.
Passed-append :
    {xs front back : List ℕ} {r r' : Reader} (p : Passed xs front r)
    → Passed p.rest back r'
    → Passed xs (front ++ back) r'
Passed-append {front} {back} p q = record {
  rest = q.rest;
  split = p.split ∙ ap (λ t. front ++ t) q.split ∙ sym (append_assoc front back q.rest);
  ahead = q.ahead;
}

pub Inverts-bind :
    {A B : Type 0} {p : Parse A} {f : A → Parse B} {P : A → List ℕ → Type 0}
    {R : B → List ℕ → Type 0}
    → Inverts p P
    → ((a : A) (front : List ℕ) → P a front → Inverts (f a) (λ b back. R b (front ++ back)))
    → Inverts (p >>= f) R
Inverts-bind {p} {f} hp hf = record {
  at = λ r ahead e.
      let (a, r₁, e₁, k) = >>=-eq-ok p f r e in
      let (front, passed, h) = hp.at r ahead e₁ in
      let (back, passed', h') = (hf a front h).at r₁ passed.ahead k in
      (front ++ back, Passed-append passed passed', h');
}

abbrev TakeImage : ℕ → List ℕ → List ℕ → Type 0
TakeImage len bs front = (front ≡ bs) × All IsByte bs × (length bs ≡ len)

Inverts-take : (len : ℕ) → Inverts (take len) (TakeImage len)
Inverts-take len = record {
  at = λ r {xs} ahead e.
      let (fits, front, moved) = take-eq-ok len r e in
      let room : len ≤ length xs = omega (arith, At-length ahead.at) in
      let bs : List ℕ = list_take len xs in
      (
        bs,
        rw moved (record {
          rest = drop len xs;
          split = sym (take-append-drop len xs);
          ahead = record {
            at = record {
              within = omega (arith, At-length ahead.at);
              rest = drop-add r.pos len r.buf ∙ ap (drop len) ahead.at.rest;
            };
            bytes = All-drop IsByte len xs ahead.bytes;
          };
        }),
        rw (front, ahead.at.rest)
            (refl, All-take IsByte len xs ahead.bytes, length-take len xs room),
      );
}

abbrev pub WordImage : ℕ → ℕ → List ℕ → Type 0
WordImage w v front = (front ≡ to_le_bytes w v) × (v < 256 ^ w)

Inverts-word : (w : ℕ) → Inverts (take w >>= λ bytes. pure (from_le_bytes bytes)) (WordImage w)
Inverts-word w = Inverts-bind (Inverts-take w) λ bs front (same, bytes, len).
    Inverts-pure (from_le_bytes bs) (
      append-nil front
          ∙ same
          ∙ sym (to_le_bytes-from_le_bytes bs bytes)
          ∙ ap (λ k. to_le_bytes k (from_le_bytes bs)) len,
      subst (λ k. from_le_bytes bs < 256 ^ k) len (from_le_bytes-lt bs bytes),
    )

pub Inverts-u16 : Inverts u16 (WordImage 2)
unfolding u16
Inverts-u16 = Inverts-word 2

pub Inverts-u32 : Inverts u32 (WordImage 4)
unfolding u32
Inverts-u32 = Inverts-word 4

pub Inverts-u64 : Inverts u64 (WordImage 8)
unfolding u64
Inverts-u64 = Inverts-word 8

abbrev pub StrImage : Str → List ℕ → Type 0
StrImage s front = (front ≡ str_image s) × IsStr s

checked :
    (R : Str → List ℕ → Type 0) (bs : List ℕ)
    → (is_utf8 bs ≡ true → R bs [])
    → Inverts (if is_utf8 bs then pure bs else raise) R
checked R bs h = elim (Bool-cases (is_utf8 bs)) [
  | inl e ↦ rw e (Inverts-pure bs (h e))
  | inr e ↦ rw e Inverts-raise
]

pub Inverts-string : Inverts string StrImage
unfolding string
Inverts-string = Inverts-bind Inverts-u32 λ len front (image, short).
    Inverts-bind (Inverts-take len) λ bs back (same, bytes, size). checked _ bs λ utf8. (
      rw (append-nil, image, same, size, mod-eq_of_lt short),
      record { utf8 = utf8; short = omega arith },
    )

-- A consumed payload has nothing left.
pub done_inv : (r : Reader) {xs : List ℕ} → At r xs → done r ≡ ok tt → xs ≡ []
unfolding done
done_inv r {xs} h e = length-eq-zero xs (ground (arith, At-length h))

pub Inverts-if :
    {A : Type 0} {p q : Parse A} {R : A → List ℕ → Type 0} (b : Bool)
    → (b ≡ true → Inverts p R)
    → (b ≡ false → Inverts q R)
    → Inverts (if b then p else q) R
Inverts-if true hp hq = hp refl
Inverts-if false hp hq = hq refl

pub Inverts-map :
    {A : Type 0} {p : Parse A} {P R : A → List ℕ → Type 0}
    → Inverts p P
    → ((a : A) (front : List ℕ) → P a front → R a front)
    → Inverts p R
Inverts-map hp f = record {
  at = λ r ahead e. let (front, passed, h) = hp.at r ahead e in (front, passed, f _ front h);
}
