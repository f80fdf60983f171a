-- ===== src/Examples/Lifetimes.antt =====
-- Tests of the provider at work: a region is registered, a reader joins and is served.
use rdmalib.Base.{ℕ, ◌+◌, ◌^◌, ◌<◌, ◌≡◌, refl, true, false, some, [], ◌∷◌, arith}
use rdmalib.Base.Io.{ok, err, timed_out, other}
use rdmalib.Base.Int.{is_zero}
use rdmalib.Base.Map.{get, insert, nat_key, pair_key}
use rdmalib.Base.Words.{to_le_bytes, from_le_bytes}
use rdmalib.Meta.Cursor as Cursor
use rdmalib.Meta.Encode.{
  encode, encode_body, put_u16, put_u32, put_u64, put_str, put_region, put_regions, put_tuple,
  put_tuples,
}
use rdmalib.Meta.Decode.{decode, decode_body}
use rdmalib.Meta.Stream.{Stream, read_exact, write_all, system_call}
use rdmalib.Meta.Frame.{
  Channel, type_byte, read_payload, read_frame, write_frame, on_stream, open_channel, send, receive,
}
use rdmalib.Rdma.Calls.{rdma_get_cm_event, Host, ask, call, check, check_ptr}
use rdmalib.Rdma.Domain.{alloc, register_addr, tuple}
use rdmalib.Rdma.OneSided.{expect}
use rdmalib.Rdma.Connect.{
  Listener, cleaned, on_error, on_host, assign, conn_id, wait_event, create_pair, create_resources,
  finish, domain_for, device_domain, finish_accept, accept_on, accept_request, accept_impl, built,
}
use rdmalib.Provider.State.{
  Sharing, new_shared, Vector, u8, new, region_info, register_typed, tuple_of, keep_tuple,
  insert_tuple, drop_replaced, region_desc, push_tuple, describe, catalog_and_tuples,
}
use rdmalib.Provider.Service.{
  greeting, wanted_group, greet, group_pd, entry_with, send_exchange, put_group, join,
  accept_reader, serve_joined, serve_greeted, serve_channel, handshake,
}
use rdmalib.Provider.System.{
  System, registers, serves, Reach, here, next, started, register_in, serve_stream,
}
use rdmalib.Provider.Sound.{Keeps}
use rdmalib.Provider.Lifetime.{Reaches, Reach-Reaches, Reach-Keeps}
use rdmalib.Provider.Serving.{drop_provider}
use rdmalib.Provider.Joining.{IsGrouped, handshake-IsGrouped}
use rdmalib.Provider.Dropping.{Dropped, drop_provider-Dropped}
use rdmalib.Provider.Refusing.{next_event, acknowledged, is_request, handshake_unexpected}
use rdmalib.Examples.Device.{device, memory}

abbrev pub buffer : Vector
buffer = record { addr = 4096; len = 64; elem = u8 }

-- A host to which a connection request has come.
abbrev pub requested : Host ℕ
requested = record { world = 3; log = [] }

abbrev pub listener : Listener
listener = record { id = 2; event_channel = 7 }

-- A reader greets and joins group 5.
abbrev joining : Stream
joining = record {
  incoming = 3 ∷ 0 ∷ 0 ∷ 0 ∷ 1 ∷ 1 ∷ 0 ∷ 5 ∷ 0 ∷ 0 ∷ 0 ∷ 3 ∷ 5 ∷ 0 ∷ 0 ∷ 0 ∷ [];
  fault = timed_out;
  outgoing = [];
  faults = [];
}

abbrev stocked : System device
stocked = register_in device u8.name buffer (started device requested)

abbrev serving : System device
serving = serve_stream device listener joining stocked

registered_run : Reach device (started device requested) stocked
registered_run = next here (registers u8.name buffer new_fits)
  where
    new_fits : new.next_id + 1 < 2 ^ 32
    new_fits = unfold new in omega arith

served_run : Reach device (started device requested) serving
served_run = next registered_run (serves listener joining)

tuple_held : get (0, 5) serving.provider.shared.tuples ≡ some memory
unfolding serve_stream register_in register_typed region_info new handshake serve_channel
    serve_greeted serve_joined accept_reader join put_group entry_with group_pd greet greeting
    wanted_group send_exchange open_channel catalog_and_tuples describe push_tuple region_desc
    tuple_of keep_tuple insert_tuple drop_replaced register_addr tuple alloc expect call ask check
    check_ptr accept_impl accept_request accept_on device_domain domain_for finish finish_accept
    create_resources create_pair cleaned on_error on_host assign conn_id wait_event built get insert
    send receive on_stream write_frame read_frame read_payload read_exact write_all system_call
    type_byte encode encode_body put_u16 put_u32 put_u64 put_str put_region put_regions put_tuple
    put_tuples to_le_bytes from_le_bytes decode decode_body Cursor.◌>>=◌ Cursor.pure Cursor.take
    Cursor.u16 Cursor.u32 Cursor.done
tuple_held = refl

Reach-Reaches_example : Reaches device serving.provider 0 5 memory
Reach-Reaches_example = Reach-Reaches device requested serving 0 5 memory served_run tuple_held

Reach-Keeps_example : Keeps stocked.provider serving.provider
Reach-Keeps_example =
    Reach-Keeps device requested stocked serving registered_run
      (next here (serves listener joining))

drop_provider-Dropped_example :
    Dropped device serving.provider.shared.tuples serving.host
      (drop_provider device (some listener) serving)
drop_provider-Dropped_example = drop_provider-Dropped device (some listener) serving

-- The same reader, when the next event is that a connection is established.
abbrev disturbed : Sharing device
disturbed = record { shared = new_shared; host = record { world = 8; log = [] } }

abbrev arrived : Channel
arrived = record { stream = joining }

-- The channel after the greeting, with the reply sent.
abbrev welcomed : Channel
welcomed = record {
  stream = record {
    incoming = [];
    fault = timed_out;
    outgoing = 3 ∷ 0 ∷ 0 ∷ 0 ∷ 2 ∷ 1 ∷ 0 ∷ [];
    faults = [];
  };
}

opens : (open_channel joining).0 ≡ ok arrived
unfolding open_channel system_call
opens = refl

greets : greet arrived ≡ (ok 5, welcomed)
unfolding greet greeting wanted_group send receive on_stream write_frame read_frame read_payload
    read_exact write_all system_call type_byte encode encode_body put_u16 put_u32 to_le_bytes
    from_le_bytes decode decode_body Cursor.◌>>=◌ Cursor.pure Cursor.take Cursor.u16 Cursor.u32
    Cursor.done
greets = refl

event_read : is_zero (ask device (rdma_get_cm_event 7) disturbed.host).0.0 ≡ true
unfolding ask
event_read = refl

not_a_request : is_request (next_event device listener disturbed.host) ≡ false
unfolding ask
not_a_request = refl

handshake_unexpected_example :
    handshake device listener joining disturbed
    ≡ (err other, record disturbed { host = acknowledged device listener disturbed.host })
handshake_unexpected_example =
    handshake_unexpected device listener joining disturbed {channel = arrived} {group = 5}
      {channel' = welcomed} opens greets event_read not_a_request

-- A provider without groups, to which a connection request has come.
abbrev waiting : Sharing device
waiting = record { shared = new_shared; host = requested }

waiting-IsGrouped : IsGrouped waiting.shared.groups
unfolding get
waiting-IsGrouped = record { at = λ group entry e. cc }

handshake-IsGrouped_example : IsGrouped (handshake device listener joining waiting).1.shared.groups
handshake-IsGrouped_example = handshake-IsGrouped device listener joining waiting waiting-IsGrouped
