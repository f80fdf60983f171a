-- ===== src/Examples/Wire.antt =====
-- Tests of the wire protocol.
use rdmalib.Base.{
  ℕ, replicate, length-replicate, subst, ap, ◌∙◌, ◌^◌, length-append, ◌+◌, ◌≤◌, ◌≡◌, refl, List, [],
  ◌∷◌, ◌++◌, All, arith, length,
}
use rdmalib.Base.Io.{ok, err, timed_out, invalid_data}
use rdmalib.Base.Words.{IsByte, length-to_le_bytes, to_le_bytes, from_le_bytes}
use rdmalib.Meta.Message.{Str, RegionDesc, Message, hello, metadata, max_frame}
use rdmalib.Meta.Utf8.{is_utf8}
use rdmalib.Meta.Encode.{encode_body, encode, put_u16, put_u32}
use rdmalib.Meta.Cursor.{◌>>=◌, pure, take, u16, done}
use rdmalib.Meta.Decode.{decode, decode_body}
use rdmalib.Meta.Stream.{Stream}
use rdmalib.Meta.Frame.{read_frame}
use rdmalib.Meta.Image.{IsMessage, encode_body-image}
use rdmalib.Meta.RoundTrip.{decode-encode_body}
use rdmalib.Meta.Canonical.{encode_body-decode}
use rdmalib.Meta.Framing.{
  frame_len, read_frame-encode, read_frame-encode_too_long, read_frame_truncated,
}
use rdmalib.Meta.Received.{read_frame_inv}

-- A catalog of one region, called "é", of `u8`s.
abbrev u8_name : Str
u8_name = b'u' ∷ b'8' ∷ []

abbrev region : RegionDesc
region = record {
  id = 0;
  name = 0xc3 ∷ 0xa9 ∷ [];
  size = 70000;
  elem_size = 1;
  elem_align = 1;
  elem_type = u8_name;
}

abbrev catalog : Message
catalog = metadata (region ∷ [])

catalog-IsMessage : IsMessage catalog
unfolding is_utf8
catalog-IsMessage = (
  omega arith,
  (
    record {
      id = omega arith;
      name = record { utf8 = refl; short = omega arith };
      size = omega arith;
      elem_size = omega arith;
      elem_align = omega arith;
      elem_type = record { utf8 = refl; short = omega arith };
    },
    tt,
  ),
)

decode-encode_body_example : decode (encode_body catalog).0 (encode_body catalog).1 ≡ ok catalog
decode-encode_body_example = decode-encode_body catalog catalog-IsMessage

hello_decoded : decode 1 (1 ∷ 0 ∷ []) ≡ ok (hello 1)
unfolding decode decode_body u16 take done ◌>>=◌ pure from_le_bytes
hello_decoded = refl

encode_body-decode_example : (encode_body (hello 1) ≡ (1, 1 ∷ 0 ∷ [])) × IsMessage (hello 1)
encode_body-decode_example =
    encode_body-decode 1 (1 ∷ 0 ∷ []) {msg = hello 1} (omega arith, (omega arith, tt)) hello_decoded

-- A stream with these bytes to come, whose peer is silent afterwards.
abbrev stream : List ℕ → Stream
stream bytes = record { incoming = bytes; fault = timed_out; outgoing = []; faults = [] }

hello_len : frame_len (hello 1) ≡ 3
unfolding encode_body put_u16 to_le_bytes
hello_len = refl

hello_bytes : encode (hello 1) ≡ 3 ∷ 0 ∷ 0 ∷ 0 ∷ 1 ∷ 1 ∷ 0 ∷ []
unfolding encode encode_body put_u16 put_u32 to_le_bytes
hello_bytes = refl

read_frame-encode_example :
    read_frame (stream (encode (hello 1) ++ (9 ∷ []))) ≡ (ok (hello 1), stream (9 ∷ []))
read_frame-encode_example =
    read_frame-encode (hello 1) (9 ∷ []) (stream (encode (hello 1) ++ (9 ∷ []))) (omega arith)
      (rw hello_len (omega arith)) refl

abbrev hello_frame : List ℕ
hello_frame = 3 ∷ 0 ∷ 0 ∷ 0 ∷ 1 ∷ 1 ∷ 0 ∷ []

read_frame_inv_example :
    (hello_frame ++ (9 ∷ []) ≡ encode (hello 1) ++ (9 ∷ []))
    × (frame_len (hello 1) ≤ max_frame)
    × IsMessage (hello 1)
read_frame_inv_example =
    read_frame_inv (stream (hello_frame ++ (9 ∷ []))) {msg = hello 1} {s' = stream (9 ∷ [])} bytes
      received
  where
    bytes : All IsByte (hello_frame ++ (9 ∷ []))
    bytes = (
      omega arith,
      (
        omega arith,
        (
          omega arith,
          (omega arith, (omega arith, (omega arith, (omega arith, (omega arith, tt))))),
        ),
      ),
    )

    received : read_frame (stream (hello_frame ++ (9 ∷ []))) ≡ (ok (hello 1), stream (9 ∷ []))
    received =
        subst (λ b. read_frame (stream (b ++ (9 ∷ []))) ≡ (ok (hello 1), stream (9 ∷ [])))
          hello_bytes read_frame-encode_example

-- A catalog with a name of `n` letters.
letters : ℕ → Str
letters n = replicate n b'a'

length-letters : (n : ℕ) → length (letters n) ≡ n
unfolding letters
length-letters n = length-replicate n b'a'

abbrev named : Str → Message
named name = metadata ((record region { name = name }) ∷ [])

named_len : (name : Str) → frame_len (named name) ≡ 35 + length name
named_len name =
    rw (encode_body-image (named name)) (simp (length-append, length-to_le_bytes) (omega arith))

abbrev long : Str
long = letters (2 ^ 20)

long_len : frame_len (named long) ≡ 35 + 2 ^ 20
long_len = named_len long ∙ ap (λ k. 35 + k) (length-letters (2 ^ 20))

read_frame-encode_too_long_example :
    read_frame (stream (encode (named long) ++ []))
    ≡ (err invalid_data, stream ((encode_body (named long)).1 ++ []))
read_frame-encode_too_long_example =
    read_frame-encode_too_long (named long) [] (stream (encode (named long) ++ []))
      (rw long_len (omega arith)) (rw long_len (omega arith)) refl

read_frame_truncated_example : (read_frame (stream (3 ∷ 0 ∷ 0 ∷ 0 ∷ 1 ∷ 1 ∷ []))).0 ≡ err timed_out
read_frame_truncated_example =
    read_frame_truncated (hello 1) (3 ∷ 0 ∷ 0 ∷ 0 ∷ 1 ∷ 1 ∷ []) [] 0
      (stream (3 ∷ 0 ∷ 0 ∷ 0 ∷ 1 ∷ 1 ∷ [])) (rw hello_len (omega arith)) hello_bytes refl
