-- ===== src/Examples/Readers.antt =====
-- A test of a reader that updates a group and looks a region up.
use rdmalib.Base.{◌≡◌, refl, some, none, [], ◌∷◌}
use rdmalib.Base.Io.{ok, timed_out}
use rdmalib.Base.Map.{get, insert, nat_key, pair_key, list_key}
use rdmalib.Meta.Stream.{Stream}
use rdmalib.Base.Words.{to_le_bytes, from_le_bytes}
use rdmalib.Meta.Utf8.{is_utf8}
use rdmalib.Meta.Cursor as Cursor
use rdmalib.Meta.Encode.{encode, encode_body, put_u16, put_u32}
use rdmalib.Meta.Decode.{
  decode, decode_body, read_region, read_regions, read_metadata, read_tuple, read_tuples,
  read_tuples_message,
}
use rdmalib.Meta.Stream.{read_exact, write_all, system_call}
use rdmalib.Meta.Frame.{
  type_byte, read_payload, read_frame, write_frame, on_stream, open_channel, send, receive,
}
use rdmalib.Rdma.Calls.{ask, call, check, check_ptr}
use rdmalib.Rdma.Domain.{alloc}
use rdmalib.Rdma.Connect.{
  resolve_v4, sockaddr, cleaned, on_error, on_host, assign, conn_id, wait_event, create_pair,
  create_resources, resolve_device, route_device, finish, finish_connect, built, connect_to,
  connect,
}
use rdmalib.Remote.Session.{
  set_channel, ingest_into, session_of, drop_slot, fill_slot, exchanged, rendezvous, after_join,
  fresh_session, update_session, dial,
}
use rdmalib.Remote.Client.{
  region_metadata, tuples_by_id, without, or_default, push_cached, ingest_region, ingest_regions,
  is_live, retain_live, find_group, slot_for, receive_exchange, greeted, join_group, ingest,
}
use rdmalib.Remote.Region.{RemoteMemoryRegion}
use rdmalib.Remote.Client.{RegionMetadata, get_remote_mr}
use rdmalib.Remote.Session.{Client, update_group}
use rdmalib.Remote.Handed.{Uses}
use rdmalib.Remote.Lifetime.{Reach, here, next, updates, looks_up, started, get_remote_mr-connected}
use rdmalib.Examples.Device.{device, idle}
use rdmalib.Examples.Exchanges.{byte_name}
use rdmalib.Examples.Rendezvous.{address}

-- What a provider of one region replies to a reader of group 5.
abbrev replies : Stream
replies = record {
  incoming =
      3 ∷ 0 ∷ 0 ∷ 0 ∷ 2 ∷ 1 ∷ 0 ∷ 37 ∷ 0 ∷ 0 ∷ 0 ∷ 5 ∷ 1 ∷ 0 ∷ 0 ∷ 0 ∷ 0 ∷ 0 ∷ 0 ∷ 0 ∷ 2 ∷ 0 ∷ 0 ∷ 0
      ∷ 117 ∷ 56 ∷ 64 ∷ 0 ∷ 0 ∷ 0 ∷ 0 ∷ 0 ∷ 0 ∷ 0 ∷ 1 ∷ 0 ∷ 0 ∷ 0 ∷ 1 ∷ 0 ∷ 0 ∷ 0 ∷ 2 ∷ 0 ∷ 0 ∷ 0
      ∷ 117 ∷ 56 ∷ 33 ∷ 0 ∷ 0 ∷ 0 ∷ 6 ∷ 5 ∷ 0 ∷ 0 ∷ 0 ∷ 1 ∷ 0 ∷ 0 ∷ 0 ∷ 0 ∷ 0 ∷ 0 ∷ 0 ∷ 0 ∷ 16 ∷ 0
      ∷ 0 ∷ 0 ∷ 0 ∷ 0 ∷ 0 ∷ 64 ∷ 0 ∷ 0 ∷ 0 ∷ 0 ∷ 0 ∷ 0 ∷ 0 ∷ 61 ∷ 0 ∷ 0 ∷ 0 ∷ [];
  fault = timed_out;
  outgoing = [];
  faults = [];
}

abbrev updated : Client device
updated = (update_group device 5 (ok replies) address (started device idle)).1

abbrev wanted : RegionMetadata
wanted = record {
  name = byte_name;
  id = 0;
  size = 64;
  elem_size = 1;
  elem_align = 1;
  elem_type = byte_name;
}

abbrev handed : RemoteMemoryRegion
handed = record {
  connection = 0;
  remote_addr = 4096;
  size = 64;
  rkey = 61;
  group = 5;
  elem_size = 1;
  elem_align = 1;
  elem_type = byte_name;
}

looked_up :
    get_remote_mr wanted (some 5) updated.provider updated.slots ≡ (some handed, updated.slots)
unfolding update_group session_of set_channel update_session fresh_session dial after_join
    rendezvous fill_slot drop_slot exchanged ingest_into ingest region_metadata tuples_by_id without
    or_default push_cached ingest_region ingest_regions is_live retain_live find_group slot_for
    get_remote_mr receive_exchange greeted join_group get insert open_channel send receive on_stream
    write_frame read_frame read_payload read_exact write_all system_call type_byte encode
    encode_body put_u16 put_u32 to_le_bytes from_le_bytes decode decode_body read_region
    read_regions read_metadata read_tuple read_tuples read_tuples_message Cursor.◌>>=◌ Cursor.pure
    Cursor.take Cursor.u16 Cursor.u32 Cursor.u64 Cursor.string Cursor.done is_utf8 connect
    resolve_v4 sockaddr connect_to resolve_device route_device finish finish_connect
    create_resources create_pair cleaned on_error on_host assign conn_id wait_event built alloc call
    ask check check_ptr
looked_up = refl

reached : Reach device (started device idle) updated
reached = next here (updates 5 (ok replies) address)

get_remote_mr-connected_example :
    (updated.slots ≡ updated.slots)
    × Uses device
        (record updated { slots = (get_remote_mr wanted none updated.provider updated.slots).1 })
        (some 5)
        handed
get_remote_mr-connected_example =
    get_remote_mr-connected device idle updated
      (record updated { slots = (get_remote_mr wanted none updated.provider updated.slots).1 })
      wanted (some 5) {region = handed} {slots = updated.slots} reached looked_up
      (next here (looks_up wanted none))
