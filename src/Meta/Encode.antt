-- ===== src/Meta/Encode.antt =====
-- src/meta.rs: `Message::encode` and the `put_*` helpers.
use rdmalib.Base.{ℕ, ◌+◌, List, [], ◌∷◌, ◌++◌, length}
use rdmalib.Base.Words.{to_le_bytes, as_u32}
use rdmalib.Meta.Message.{
  Str, RegionDesc, TupleDesc, Message, hello, welcome, want_group, update, metadata, tuples,
  msg_hello, msg_welcome, msg_want_group, msg_update, msg_metadata, msg_tuples,
}

unfoldable pub put_u16 : List ℕ → ℕ → List ℕ
put_u16 buf v = buf ++ to_le_bytes 2 v

unfoldable pub put_u32 : List ℕ → ℕ → List ℕ
put_u32 buf v = buf ++ to_le_bytes 4 v

unfoldable pub put_u64 : List ℕ → ℕ → List ℕ
put_u64 buf v = buf ++ to_le_bytes 8 v

unfoldable pub put_str : List ℕ → Str → List ℕ
put_str buf s = put_u32 buf (as_u32 (length s)) ++ s

-- One round of the loop over the regions.
unfoldable pub put_region : List ℕ → RegionDesc → List ℕ
put_region payload region =
    let payload = put_u32 payload region.id in
    let payload = put_str payload region.name in
    let payload = put_u64 payload region.size in
    let payload = put_u32 payload region.elem_size in
    let payload = put_u32 payload region.elem_align in put_str payload region.elem_type

unfoldable pub put_regions : List ℕ → List RegionDesc → List ℕ
put_regions payload [] = payload
put_regions payload (region ∷ regions) = put_regions (put_region payload region) regions

unfoldable pub put_tuple : List ℕ → TupleDesc → List ℕ
put_tuple payload tuple =
    let payload = put_u32 payload tuple.region_id in
    let payload = put_u64 payload tuple.remote_addr in
    let payload = put_u64 payload tuple.size in put_u32 payload tuple.rkey

unfoldable pub put_tuples : List ℕ → List TupleDesc → List ℕ
put_tuples payload [] = payload
put_tuples payload (tuple ∷ rest) = put_tuples (put_tuple payload tuple) rest

-- The `match` of `encode`: the type code and the payload.
unfoldable pub encode_body : Message → ℕ × List ℕ
encode_body (hello version) = (msg_hello, put_u16 [] version)
encode_body (welcome version) = (msg_welcome, put_u16 [] version)
encode_body (want_group group) = (msg_want_group, put_u32 [] group)
encode_body update = (msg_update, [])
encode_body (metadata regions) =
    (msg_metadata, put_regions (put_u32 [] (as_u32 (length regions))) regions)
encode_body (tuples group descs) =
    (msg_tuples, put_tuples (put_u32 (put_u32 [] group) (as_u32 (length descs))) descs)

-- `1 + payload.len() as u32` wraps, as in a release build.
unfoldable pub encode : Message → List ℕ
encode msg =
    let (ty, payload) = encode_body msg in
    put_u32 [] (as_u32 (1 + as_u32 (length payload))) ++ (ty ∷ payload)
