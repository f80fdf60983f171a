-- ===== src/Meta/Frame.antt =====
-- src/meta.rs: `read_frame`, `write_frame` and `Channel`.
use rdmalib.Base.{ℕ, ◌-◌, List, ◌∷◌, ◌||◌, ltb, ◌==◌, take, if◌then◌else◌}
use rdmalib.Base.Io.{invalid_data}
use rdmalib.Base.Exec.{Exec, ◌>>=◌, ◌>>◌, pure, raise, lift}
use rdmalib.Base.Words.{from_le_bytes}
use rdmalib.Meta.Message.{Message, max_frame}
use rdmalib.Meta.Encode.{encode}
use rdmalib.Meta.Decode.{decode}
use rdmalib.Meta.Stream.{Stream, read_exact, system_call, write_all}

-- `header[4]`; the header has five bytes.
unfoldable pub type_byte : List ℕ → ℕ
type_byte (_ ∷ _ ∷ _ ∷ _ ∷ ty ∷ _) = ty
type_byte _ = 0

unfoldable pub read_payload : ℕ → ℕ → Exec Stream Message
read_payload len ty = do payload ← read_exact (len - 1); lift (decode ty payload)

unfoldable pub read_frame : Exec Stream Message
unfolding read_payload
read_frame = do
  header ← read_exact 5
  let len = from_le_bytes (take 4 header)
  if len == 0 || ltb max_frame len then raise invalid_data else read_payload len (type_byte header)

unfoldable pub write_frame : Message → Exec Stream (Unit {0})
write_frame msg = write_all (encode msg)

pub record Channel : Type 0 where
  pub stream : Stream

-- An operation on the stream of a channel.
unfoldable pub on_stream : {A : Type 0} → Exec Stream A → Exec Channel A
on_stream m c = let (r, s) = m c.stream in (r, record { stream = s })

-- `Channel::new`: the two timeouts are armed, and the stream is adopted.
unfoldable pub open_channel : Exec Stream Channel
open_channel s = (do system_call; system_call; λ t. pure (record { stream = t }) t) s

unfoldable pub send : Message → Exec Channel (Unit {0})
send msg = on_stream (write_frame msg)

unfoldable pub receive : Exec Channel Message
receive = on_stream read_frame
