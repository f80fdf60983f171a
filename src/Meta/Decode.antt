-- ===== src/Meta/Decode.antt =====
-- src/meta.rs: `decode`.
use rdmalib.Base.{ℕ, zero, suc, List, [], ◌∷◌, ◌++◌, ◌==◌, if◌then◌else◌}
use rdmalib.Base.Io.{IoResult, ok, err}
use rdmalib.Meta.Message.{
  RegionDesc, TupleDesc, Message, hello, welcome, want_group, update, metadata, tuples, msg_hello,
  msg_welcome, msg_want_group, msg_update, msg_metadata, msg_tuples,
}
use rdmalib.Meta.Cursor.{Parse, ◌>>=◌, pure, raise, u16, u32, u64, string, done}

unfoldable pub read_region : Parse RegionDesc
read_region = do
  id ← u32
  name ← string
  size ← u64
  elem_size ← u32
  elem_align ← u32
  elem_type ← string
  pure (record {
    id = id;
    name = name;
    size = size;
    elem_size = elem_size;
    elem_align = elem_align;
    elem_type = elem_type;
  })

-- `for _ in 0..count { regions.push(..) }`
unfoldable pub read_regions : ℕ → List RegionDesc → Parse (List RegionDesc)
read_regions zero regions = pure regions
read_regions (suc count) regions = do
  region ← read_region
  read_regions count (regions ++ (region ∷ []))

unfoldable pub read_tuple : Parse TupleDesc
read_tuple = do
  region_id ← u32
  remote_addr ← u64
  size ← u64
  rkey ← u32
  pure (record { region_id = region_id; remote_addr = remote_addr; size = size; rkey = rkey })

unfoldable pub read_tuples : ℕ → List TupleDesc → Parse (List TupleDesc)
read_tuples zero descs = pure descs
read_tuples (suc count) descs = do tuple ← read_tuple; read_tuples count (descs ++ (tuple ∷ []))

unfoldable pub read_metadata : Parse Message
read_metadata = do count ← u32; regions ← read_regions count []; pure (metadata regions)

unfoldable pub read_tuples_message : Parse Message
read_tuples_message = do
  group ← u32
  count ← u32
  descs ← read_tuples count []
  pure (tuples group descs)

-- The `match` of `decode`.
unfoldable pub decode_body : ℕ → Parse Message
decode_body ty =
    if ty == msg_hello
    then (do version ← u16; pure (hello version))
    else if ty == msg_welcome
    then (do version ← u16; pure (welcome version))
    else if ty == msg_want_group
    then (do group ← u32; pure (want_group group))
    else if ty == msg_update
    then pure update
    else if ty == msg_metadata
    then read_metadata
    else if ty == msg_tuples
    then read_tuples_message
    else raise

unfoldable pub decode : ℕ → List ℕ → IoResult Message
decode ty payload = elim (decode_body ty (record { buf = payload; pos = 0 })) [
  | ok (msg, r) ↦ elim (done r) [ ok _ ↦ ok msg | err e ↦ err e ]
  | err e ↦ err e
]
