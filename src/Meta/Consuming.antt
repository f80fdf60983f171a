-- ===== src/Meta/Consuming.antt =====
-- A message received takes its frame off the stream: at least the five bytes of a header.
use rdmalib.Base.{
  ℕ, ◌+◌, ◌-◌, ◌≤◌, ◌≡◌, ap, List, length, length-drop, ltb, ◌==◌, ◌||◌, take, arith, Bool-cases,
  inl, inr,
}
use rdmalib.Base.Io.{IoResult, ok}
use rdmalib.Base.Exec.{>>=-eq-ok}
use rdmalib.Base.Words.{from_le_bytes}
use rdmalib.Meta.Message.{Message, max_frame}
use rdmalib.Meta.Stream.{Stream, read_exact}
use rdmalib.Meta.Frame.{Channel, type_byte, read_payload, read_frame, on_stream, receive}

read_exact_length :
    (n : ℕ) (s : Stream) {s' : Stream} {bs : List ℕ}
    → read_exact n s ≡ (ok bs, s')
    → length s'.incoming + n ≡ length s.incoming
unfolding read_exact
read_exact_length n s e = ground (arith, length-drop n s.incoming)

read_payload_length :
    (len ty : ℕ) (s : Stream) {msg : Message} {s' : Stream}
    → read_payload len ty s ≡ (ok msg, s')
    → length s'.incoming ≤ length s.incoming
unfolding read_payload
read_payload_length len ty s e =
    let (payload, s₁, e₁, k) = >>=-eq-ok (read_exact (len - 1)) _ s e in
    omega (
      arith,
      read_exact_length (len - 1) s e₁,
      ap (λ (p : IoResult Message × Stream). length p.1.incoming) k,
    )

read_frame_length :
    (s : Stream) {msg : Message} {s' : Stream}
    → read_frame s ≡ (ok msg, s')
    → length s'.incoming + 5 ≤ length s.incoming
unfolding read_frame
read_frame_length s e =
    let (hs, s₁, e₁, k) = >>=-eq-ok (read_exact 5) _ s e in
    let len : ℕ = from_le_bytes (take 4 hs) in
    elim (Bool-cases (len == 0 || ltb max_frame len)) [
      | inl bad ↦ cc (rw bad at k)
      | inr good ↦ omega (
        arith,
        read_exact_length 5 s e₁,
        read_payload_length len (type_byte hs) s₁ (rw good at k),
      )
    ]

-- At least five bytes are consumed.
pub receive_length :
    (c : Channel) {msg : Message} {c' : Channel}
    → receive c ≡ (ok msg, c')
    → length c'.stream.incoming + 5 ≤ length c.stream.incoming
unfolding receive on_stream
receive_length c {msg} {c'} e =
    let read : read_frame c.stream ≡ (ok msg, c'.stream) =
      ap (λ (p : IoResult Message × Channel). (p.0, p.1.stream)) e in
    read_frame_length c.stream read
