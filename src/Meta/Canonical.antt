-- ===== src/Meta/Canonical.antt =====
-- Encoding what was decoded: a message has one wire image only.
use native.Mathlib.Nat.{mod-eq_of_lt}
use rdmalib.Base.{
  ℕ, zero, suc, ◌<◌, ◌^◌, ◌≡◌, refl, sym, ap, ap₂, ◌∙◌, List, [], ◌∷◌, ◌++◌, length, All,
  append-nil, append_assoc, ◌==◌, arith,
}
use rdmalib.Base.Io.{IoResult, ok, err}
use rdmalib.Base.Words.{IsByte, as_u32, to_le_bytes}
use rdmalib.Meta.Message.{
  RegionDesc, TupleDesc, Message, hello, welcome, want_group, update, metadata, tuples, msg_hello,
  msg_welcome, msg_want_group, msg_update, msg_metadata, msg_tuples,
}
use rdmalib.Meta.Encode.{encode_body}
use rdmalib.Meta.Cursor.{Reader, done}
use rdmalib.Meta.Decode.{
  read_region, read_regions, read_tuple, read_tuples, read_metadata, read_tuples_message,
  decode_body, decode,
}
use rdmalib.Meta.Image.{
  region_image, tuple_image, images, payload_image, IsRegion, IsTuple, IsMessage, encode_body-image,
}
use rdmalib.Meta.Parsing.{
  Ahead, Inverts, Inverts-if, Inverts-map, Inverts-pure, Inverts-raise, Inverts-bind, Inverts-u16,
  Inverts-u32, Inverts-u64, Inverts-string, done_inv,
}

Inverts-IsRegion : Inverts read_region (λ r front. (front ≡ region_image r) × IsRegion r)
unfolding read_region
Inverts-IsRegion = Inverts-bind Inverts-u32 λ id f₁ (e₁, h₁).
    Inverts-bind Inverts-string λ name f₂ (e₂, h₂). Inverts-bind Inverts-u64 λ size f₃ (e₃, h₃).
      Inverts-bind Inverts-u32 λ elem_size f₄ (e₄, h₄).
        Inverts-bind Inverts-u32 λ elem_align f₅ (e₅, h₅).
          Inverts-bind Inverts-string λ elem_type f₆ (e₆, h₆). Inverts-pure _ (
            rw (append-nil, e₁, e₂, e₃, e₄, e₅, e₆),
            record {
              id = h₁;
              name = h₂;
              size = h₃;
              elem_size = h₄;
              elem_align = h₅;
              elem_type = h₆;
            },
          )

Inverts-IsTuple : Inverts read_tuple (λ t front. (front ≡ tuple_image t) × IsTuple t)
unfolding read_tuple
Inverts-IsTuple = Inverts-bind Inverts-u32 λ region_id f₁ (e₁, h₁).
    Inverts-bind Inverts-u64 λ remote_addr f₂ (e₂, h₂). Inverts-bind Inverts-u64 λ size f₃ (e₃, h₃).
      Inverts-bind Inverts-u32 λ rkey f₄ (e₄, h₄). Inverts-pure _ (
        rw (append-nil, e₁, e₂, e₃, e₄),
        record { region_id = h₁; remote_addr = h₂; size = h₃; rkey = h₄ },
      )

-- The loop adds as many elements as its count to those at hand.
record Loaded {A : Type 0} (image : A → List ℕ) (P : A → Type 0) (count : ℕ) (acc out : List A)
    (front : List ℕ) : Type 0 where
  read : List A
  joined : out ≡ acc ++ read
  counted : length read ≡ count
  bytes : front ≡ images image read
  each : All P read

Loaded-cons :
    {A : Type 0} {image : A → List ℕ} {P : A → Type 0} {count : ℕ} {acc out : List A}
    {front : List ℕ} (x : A) {f : List ℕ}
    → f ≡ image x
    → P x
    → Loaded image P count (acc ++ (x ∷ [])) out front
    → Loaded image P (suc count) acc out (f ++ front)
Loaded-cons {acc} x e h l = record {
  read = x ∷ l.read;
  joined = l.joined ∙ append_assoc acc (x ∷ []) l.read;
  counted = ap suc l.counted;
  bytes = rw (e, l.bytes);
  each = (h, l.each);
}

Inverts-regions :
    (count : ℕ) (acc : List RegionDesc)
    → Inverts (read_regions count acc) (Loaded region_image IsRegion count acc)
unfolding read_regions
Inverts-regions zero acc =
    Inverts-pure acc
      (record { read = []; joined = sym (append-nil acc); counted = refl; bytes = refl; each = tt })
Inverts-regions (suc count) acc = Inverts-bind Inverts-IsRegion λ r f (e, h).
    Inverts-map (Inverts-regions count (acc ++ (r ∷ []))) λ out front l. Loaded-cons r e h l

Inverts-tuples :
    (count : ℕ) (acc : List TupleDesc)
    → Inverts (read_tuples count acc) (Loaded tuple_image IsTuple count acc)
unfolding read_tuples
Inverts-tuples zero acc =
    Inverts-pure acc
      (record { read = []; joined = sym (append-nil acc); counted = refl; bytes = refl; each = tt })
Inverts-tuples (suc count) acc = Inverts-bind Inverts-IsTuple λ t f (e, h).
    Inverts-map (Inverts-tuples count (acc ++ (t ∷ []))) λ out front l. Loaded-cons t e h l

-- A body of type `ty` was the encoder's for the message.
abbrev BodyImage : ℕ → Message → List ℕ → Type 0
BodyImage ty msg front = (ty ≡ (encode_body msg).0) × (front ≡ payload_image msg) × IsMessage msg

counted_image :
    (count n : ℕ) → n ≡ count → count < 256 ^ 4 → to_le_bytes 4 count ≡ to_le_bytes 4 (as_u32 n)
counted_image count n e h = rw (e, mod-eq_of_lt h)

Inverts-metadata : (ty : ℕ) → ty ≡ msg_metadata → Inverts read_metadata (BodyImage ty)
unfolding read_metadata encode_body
Inverts-metadata ty e = Inverts-bind Inverts-u32 λ count f (e₁, h₁).
    Inverts-bind (Inverts-regions count []) λ out front l. Inverts-pure (metadata out) (
      e,
      rw (append-nil, e₁, l.bytes, l.joined)
          (ap (λ b. b ++ images region_image l.read) (counted_image count _ l.counted h₁)),
      rw l.joined (omega (arith, l.counted), l.each),
    )

Inverts-tuples_message : (ty : ℕ) → ty ≡ msg_tuples → Inverts read_tuples_message (BodyImage ty)
unfolding read_tuples_message encode_body
Inverts-tuples_message ty e = Inverts-bind Inverts-u32 λ group f₀ (e₀, h₀).
    Inverts-bind Inverts-u32 λ count f (e₁, h₁).
      Inverts-bind (Inverts-tuples count []) λ out front l. Inverts-pure (tuples group out) (
        e,
        rw (append-nil, e₀, e₁, l.bytes, l.joined)
            (ap (λ b. to_le_bytes 4 group ++ (b ++ images tuple_image l.read))
              (counted_image count _ l.counted h₁)),
        rw l.joined (omega arith, omega (arith, l.counted), l.each),
      )

Inverts-body : (ty : ℕ) → Inverts (decode_body ty) (BodyImage ty)
unfolding decode_body encode_body
Inverts-body ty =
    Inverts-if (ty == msg_hello)
      (λ t.
        Inverts-bind Inverts-u16
          λ v f (e, h). Inverts-pure (hello v) (rw append-nil (ground arith, e, omega arith)))
      λ _.
        Inverts-if (ty == msg_welcome)
          (λ t.
            Inverts-bind Inverts-u16
              λ v f (e, h). Inverts-pure (welcome v) (rw append-nil (ground arith, e, omega arith)))
          λ _.
            Inverts-if (ty == msg_want_group)
              (λ t. Inverts-bind Inverts-u32 λ v f (e, h).
                Inverts-pure (want_group v) (rw append-nil (ground arith, e, omega arith)))
              λ _.
                Inverts-if (ty == msg_update) (λ t. Inverts-pure update (ground arith, refl, tt))
                  λ _.
                    Inverts-if (ty == msg_metadata) (λ t. Inverts-metadata ty (ground arith))
                      λ _.
                        Inverts-if (ty == msg_tuples)
                          (λ t. Inverts-tuples_message ty (ground arith)) λ _. Inverts-raise

at_start :
    (payload : List ℕ) → All IsByte payload → Ahead (record { buf = payload; pos = 0 }) payload
at_start payload bytes = record { at = record { within = omega arith; rest = refl }; bytes = bytes }

abbrev start : List ℕ → Reader
start payload = record { buf = payload; pos = 0 }

decode-eq-ok :
    (ty : ℕ) (payload : List ℕ) {msg : Message}
    → decode ty payload ≡ ok msg
    → (r : Reader) × (decode_body ty (start payload) ≡ ok (msg, r)) × (done r ≡ ok tt)
unfolding decode
decode-eq-ok ty payload {msg} e = go (decode_body ty (start payload)) refl e
  where
    ended :
        (m : Message) (r : Reader) (d : IoResult (Unit {0}))
        → decode_body ty (start payload) ≡ ok (m, r)
        → done r ≡ d
        → ◌≡◌ {A = IoResult Message} (elim d [ ok _ ↦ ok m | err e ↦ err e ]) (ok msg)
        → (r : Reader) × (decode_body ty (start payload) ≡ ok (msg, r)) × (done r ≡ ok tt)
    ended m r (ok tt) p d k = let same : m ≡ msg = cc in (r, rw (← same) p, d)
    ended m r (err x) p d k = cc

    go :
        (b : IoResult (Message × Reader))
        → decode_body ty (start payload) ≡ b
        → ◌≡◌ {A = IoResult Message}
            (elim b [ ok (m, r) ↦ elim (done r) [ ok _ ↦ ok m | err e ↦ err e ] | err e ↦ err e ])
            (ok msg)
        → (r : Reader) × (decode_body ty (start payload) ≡ ok (msg, r)) × (done r ≡ ok tt)
    go (ok (m, r)) p k = ended m r (done r) p refl k
    go (err x) p k = cc

-- A payload of bytes that decodes under a type code is, with that code, what `encode` writes for
-- the message, and the message's fields are in the range of their types.
pub encode_body-decode :
    (ty : ℕ) (payload : List ℕ) {msg : Message}
    → All IsByte payload
    → decode ty payload ≡ ok msg
    → (encode_body msg ≡ (ty, payload)) × IsMessage msg
encode_body-decode ty payload {msg} bytes e =
    let (r, parsed, ended) = decode-eq-ok ty payload e in
    let (front, passed, (code, image, valid)) =
      (Inverts-body ty).at (start payload) (at_start payload bytes) parsed in
    let whole : payload ≡ payload_image msg =
      passed.split
      ∙ ap (λ t. front ++ t) (done_inv r passed.ahead.at ended)
      ∙ append-nil front
      ∙ image in
    (ap₂ (λ c p. (c, p)) (sym code) (encode_body-image msg ∙ sym whole), valid)
