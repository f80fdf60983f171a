-- ===== src/Meta/RoundTrip.antt =====
-- Decoding what was encoded.
use native.Mathlib.Nat.{mod-eq_of_lt}
use rdmalib.Base.{
  ℕ, ◌≡◌, sym, ◌∙◌, arith, List, [], ◌∷◌, ◌++◌, length, All, append-nil, append_assoc,
}
use rdmalib.Base.Io.{ok}
use rdmalib.Base.Words.{IsU32, as_u32, to_le_bytes}
use rdmalib.Meta.Message.{
  RegionDesc, TupleDesc, Message, hello, welcome, want_group, update, metadata, tuples,
}
use rdmalib.Meta.Encode.{encode_body}
use rdmalib.Meta.Cursor.{u32}
use rdmalib.Meta.Decode.{
  read_region, read_regions, read_tuple, read_tuples, read_metadata, read_tuples_message,
  decode_body, decode,
}
use rdmalib.Meta.Image.{
  region_image, tuple_image, images, payload_image, IsRegion, IsTuple, IsMessage, encode_body-image,
}
use rdmalib.Meta.Reading.{
  At, Reads, Reads-pure, Reads-bind, Reads-u16, Reads-u32, Reads-u64, Reads-string, done-at_end,
}

Reads-region :
    (r : RegionDesc) (ys : List ℕ) → IsRegion r → Reads read_region (region_image r ++ ys) r ys
unfolding read_region
Reads-region r ys h = simp append_assoc (
    Reads-bind _ (Reads-u32 r.id _ h.id) (
      Reads-bind _ (Reads-string r.name _ h.name) (
        Reads-bind _ (Reads-u64 r.size _ h.size) (
          Reads-bind _ (Reads-u32 r.elem_size _ h.elem_size) (
            Reads-bind _ (Reads-u32 r.elem_align _ h.elem_align)
              (Reads-bind _ (Reads-string r.elem_type _ h.elem_type) (Reads-pure r ys)))))))

Reads-regions :
    (rs acc : List RegionDesc) (ys : List ℕ)
    → All IsRegion rs
    → Reads (read_regions (length rs) acc) (images region_image rs ++ ys) (acc ++ rs) ys
unfolding read_regions
Reads-regions [] acc ys h = rw append-nil (Reads-pure acc ys)
Reads-regions (r ∷ rs) acc ys (hr, hrs) =
    rw (append_assoc (region_image r) (images region_image rs) ys) (
      Reads-bind _ (Reads-region r (images region_image rs ++ ys) hr)
        (rw (append_assoc acc (r ∷ []) rs) at (Reads-regions rs (acc ++ (r ∷ [])) ys hrs)))

Reads-tuple :
    (t : TupleDesc) (ys : List ℕ) → IsTuple t → Reads read_tuple (tuple_image t ++ ys) t ys
unfolding read_tuple
Reads-tuple t ys h = simp append_assoc (
    Reads-bind _ (Reads-u32 t.region_id _ h.region_id) (
      Reads-bind _ (Reads-u64 t.remote_addr _ h.remote_addr) (
        Reads-bind _ (Reads-u64 t.size _ h.size)
          (Reads-bind _ (Reads-u32 t.rkey _ h.rkey) (Reads-pure t ys)))))

Reads-tuples :
    (ts acc : List TupleDesc) (ys : List ℕ)
    → All IsTuple ts
    → Reads (read_tuples (length ts) acc) (images tuple_image ts ++ ys) (acc ++ ts) ys
unfolding read_tuples
Reads-tuples [] acc ys h = rw append-nil (Reads-pure acc ys)
Reads-tuples (t ∷ ts) acc ys (ht, hts) =
    rw (append_assoc (tuple_image t) (images tuple_image ts) ys) (
      Reads-bind _ (Reads-tuple t (images tuple_image ts ++ ys) ht)
        (rw (append_assoc acc (t ∷ []) ts) at (Reads-tuples ts (acc ++ (t ∷ [])) ys hts)))

Reads-count : (n : ℕ) (ys : List ℕ) → IsU32 n → Reads u32 (to_le_bytes 4 (as_u32 n) ++ ys) n ys
Reads-count n ys h = rw (mod-eq_of_lt h) (Reads-u32 n ys h)

Reads-body :
    (msg : Message) (ys : List ℕ)
    → IsMessage msg
    → Reads (decode_body (encode_body msg).0) (payload_image msg ++ ys) msg ys
unfolding decode_body encode_body read_metadata read_tuples_message
Reads-body (hello version) ys h = Reads-bind _ (Reads-u16 version ys h) (Reads-pure _ ys)
Reads-body (welcome version) ys h = Reads-bind _ (Reads-u16 version ys h) (Reads-pure _ ys)
Reads-body (want_group group) ys h = Reads-bind _ (Reads-u32 group ys h) (Reads-pure _ ys)
Reads-body update ys h = Reads-pure update ys
Reads-body (metadata regions) ys (hn, hs) =
    rw (append_assoc (to_le_bytes 4 (as_u32 (length regions))) (images region_image regions) ys) (
      Reads-bind _ (Reads-count (length regions) _ hn)
        (Reads-bind _ (Reads-regions regions [] ys hs) (Reads-pure _ ys)))
Reads-body (tuples group descs) ys (hg, hn, hs) = simp append_assoc (
    Reads-bind _ (Reads-u32 group _ hg) (
      Reads-bind _ (Reads-count (length descs) _ hn)
        (Reads-bind _ (Reads-tuples descs [] ys hs) (Reads-pure _ ys))))

At-start :
    (msg : Message) → At (record { buf = (encode_body msg).1; pos = 0 }) (payload_image msg ++ [])
At-start msg = record {
  within = omega arith;
  rest = encode_body-image msg ∙ sym (append-nil (payload_image msg));
}

-- Decoding the type code and the payload that `encode` writes gives the message back, for every
-- message whose fields fit the wire.
pub decode-encode_body :
    (msg : Message) → IsMessage msg → decode (encode_body msg).0 (encode_body msg).1 ≡ ok msg
unfolding decode
decode-encode_body msg h =
    let (r, e, end) = (Reads-body msg [] h).at _ (At-start msg) in
    rw (e, decode) (rw (done-at_end r end))
