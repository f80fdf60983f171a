-- ===== src/Meta/Message.antt =====
-- src/meta.rs: the messages of the metadata exchange, their type codes and limits.
use rdmalib.Base.{ℕ, ◌^◌, List}

-- A `String` is the list of its bytes; `Utf8.is_utf8` holds of the bytes of every string.
abbrev pub Str : Type 0
Str = List ℕ

abbrev pub protocol_version : ℕ
protocol_version = 1

abbrev pub max_frame : ℕ
max_frame = 2 ^ 20

abbrev pub msg_hello : ℕ
msg_hello = 1

abbrev pub msg_welcome : ℕ
msg_welcome = 2

abbrev pub msg_want_group : ℕ
msg_want_group = 3

abbrev pub msg_update : ℕ
msg_update = 4

abbrev pub msg_metadata : ℕ
msg_metadata = 5

abbrev pub msg_tuples : ℕ
msg_tuples = 6

pub record RegionDesc : Type 0 where
  pub id : ℕ
  pub name : Str
  pub size : ℕ
  pub elem_size : ℕ
  pub elem_align : ℕ
  pub elem_type : Str

pub record TupleDesc : Type 0 where
  pub region_id : ℕ
  pub remote_addr : ℕ
  pub size : ℕ
  pub rkey : ℕ

pub data Message : Type 0 where
  hello : ℕ → Message
  welcome : ℕ → Message
  want_group : ℕ → Message
  update : Message
  metadata : List RegionDesc → Message
  tuples : ℕ → List TupleDesc → Message
