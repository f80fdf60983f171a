-- ===== src/Examples/Exchanges.antt =====
-- Tests of exchanges as a whole, and of the session thread.
use rdmalib.Base.{ℕ, ◌≡◌, refl, sym, subst, some, false, List, [], ◌∷◌, arith}
use rdmalib.Base.Io.{ok, timed_out}
use rdmalib.Base.Map.{get, insert, nat_key, pair_key}
use rdmalib.Base.Words.{to_le_bytes}
use rdmalib.Meta.Message.{Str, RegionDesc, TupleDesc, Message, metadata, tuples}
use rdmalib.Meta.Utf8.{is_utf8}
use rdmalib.Meta.Encode.{
  encode_body, put_u32, put_u64, put_str, put_region, put_regions, put_tuple, put_tuples,
}
use rdmalib.Meta.Stream.{write_all, system_call}
use rdmalib.Meta.Frame.{Channel, on_stream, write_frame, send}
use rdmalib.Rdma.Calls.{ask, call, check_ptr}
use rdmalib.Rdma.Domain.{register_addr, tuple}
use rdmalib.Provider.State.{
  RegionInfo, Sharing, tuple_of, keep_tuple, insert_tuple, drop_replaced, region_desc, push_tuple,
  describe, catalog_and_tuples,
}
use rdmalib.Provider.Service.{send_exchange, wait_for_updates}
use rdmalib.Provider.Sharing.{IsShared}
use rdmalib.Provider.Waiting.{wait_for_updates_ends, wait_for_updates_silent}
use rdmalib.Remote.Client.{new_provider, receive_exchange, ingest}
use rdmalib.Remote.View.{view, after_exchange, view-ingest}
use rdmalib.Exchange.Channels.{IsSendable, sent, left}
use rdmalib.Exchange.Delivery.{offer, receive_exchange-delivers}
use rdmalib.Examples.Device.{device, idle, domain}

abbrev pub byte_name : Str
byte_name = b'u' ∷ b'8' ∷ []

abbrev described : RegionDesc
described = record {
  id = 0;
  name = byte_name;
  size = 64;
  elem_size = 1;
  elem_align = 1;
  elem_type = byte_name;
}

abbrev registered : TupleDesc
registered = record { region_id = 0; remote_addr = 4096; size = 64; rkey = 61 }

view-ingest_example :
    view (ingest 5 (metadata (described ∷ []), tuples 5 (registered ∷ [])) new_provider).1
    ≡ after_exchange 5 (described ∷ []) (registered ∷ []) (view new_provider)
view-ingest_example = view-ingest 5 (described ∷ []) (registered ∷ []) new_provider

-- A provider of one region, with a group that a reader has joined.
abbrev pub info : RegionInfo
info = record {
  name = byte_name;
  remote_addr = 4096;
  size = 64;
  elem_size = 1;
  elem_align = 1;
  elem_type = byte_name;
}

abbrev start : Sharing device
start = record {
  shared = record {
    catalog = (0, info) ∷ [];
    groups = (5, record { pd = domain; connections = [] }) ∷ [];
    tuples = [];
  };
  host = idle;
}

start-IsShared : IsShared start.shared
unfolding get
start-IsShared = record { at = λ id group mr e. cc }

abbrev pub exchange : Message × Message
exchange = (metadata (described ∷ []), tuples 5 (registered ∷ []))

served : (catalog_and_tuples device 5 start).0 ≡ exchange
unfolding catalog_and_tuples describe region_desc push_tuple tuple_of register_addr call ask
    check_ptr keep_tuple insert_tuple drop_replaced get insert tuple
served = refl

pub catalog-IsSendable : IsSendable exchange.0
unfolding is_utf8 encode_body put_regions put_region put_str put_u64 put_u32 to_le_bytes
catalog-IsSendable = record {
  valid = (
    omega arith,
    (
      record {
        id = omega arith;
        name = record { utf8 = refl; short = omega arith };
        size = omega arith;
        elem_size = omega arith;
        elem_align = omega arith;
        elem_type = record { utf8 = refl; short = omega arith };
      },
      tt,
    ),
  );
  fits = omega arith;
}

pub tuples-IsSendable : IsSendable exchange.1
unfolding encode_body put_tuples put_tuple put_u64 put_u32 to_le_bytes
tuples-IsSendable = record {
  valid = (
    omega arith,
    omega arith,
    (
      record {
        region_id = omega arith;
        remote_addr = omega arith;
        size = omega arith;
        rkey = omega arith;
      },
      tt,
    ),
  );
  fits = omega arith;
}

abbrev silent : List ℕ → Channel
silent bytes = record {
  stream = record { incoming = bytes; fault = timed_out; outgoing = []; faults = [] };
}

-- The bytes of the exchange, as the provider has sent them.
abbrev wire : List ℕ
wire = sent (send_exchange (catalog_and_tuples device 5 start).0 (silent [])).1

all_sent :
    send_exchange (catalog_and_tuples device 5 start).0 (silent [])
    ≡ (ok tt, (send_exchange (catalog_and_tuples device 5 start).0 (silent [])).1)
unfolding send_exchange send on_stream write_frame write_all system_call
all_sent = refl

receive_exchange-delivers_example :
    (receive_exchange (silent wire)
      ≡ (ok (catalog_and_tuples device 5 start).0, left (silent wire) []))
    × ((key : Str × ℕ)
        → view (ingest 5 (catalog_and_tuples device 5 start).0 new_provider).1 key 5
          ≡ offer 5 (catalog_and_tuples device 5 start).1.shared key)
receive_exchange-delivers_example =
    receive_exchange-delivers device 5 start (silent []) (silent wire) new_provider start-IsShared
      (tt, tt) (subst (λ (x : Message × Message). IsSendable x.0) (sym served) catalog-IsSendable)
      (subst (λ (x : Message × Message). IsSendable x.1) (sym served) tuples-IsSendable) all_sent
      refl

wait_for_updates_ends_example :
    (c' : Channel) × (s' : Sharing device) × (wait_for_updates device 5
        (false ∷ false ∷ false ∷ [])
        (silent (1 ∷ 4 ∷ []))
        start
      ≡ some (c', s'))
wait_for_updates_ends_example =
    wait_for_updates_ends device 5 (false ∷ false ∷ false ∷ []) (silent (1 ∷ 4 ∷ [])) start
      (omega arith)

-- The peer has sent part of a header, and then stays silent until the read timeout.
wait_for_updates_silent_example :
    wait_for_updates device 5 (false ∷ false ∷ []) (silent (1 ∷ 0 ∷ [])) start
    ≡ some (silent [], start)
wait_for_updates_silent_example =
    wait_for_updates_silent device 5 (false ∷ []) (silent (1 ∷ 0 ∷ [])) start (omega arith)
