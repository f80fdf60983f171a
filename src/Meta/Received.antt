-- ===== src/Meta/Received.antt =====
-- What a received message says of the stream: the converse of Meta/Framing.
use rdmalib.Base.{
  ℕ, ◌-◌, ◌≤◌, ◌<◌, ◌≡◌, sym, subst, ap, ap₂, ◌∙◌, inl, inr, List, [], ◌∷◌, ◌++◌, length, take,
  drop, length-take, take-append-drop, All, All-take, All-drop, append_assoc, Bool-cases, ◌==◌, ltb,
  ◌||◌, if◌then◌else◌, arith,
}
use rdmalib.Base.Io.{IoResult, ok, invalid_data}
use rdmalib.Base.Exec.{raise, >>=-eq-ok}
use rdmalib.Base.Words.{IsByte, to_le_bytes, from_le_bytes, to_le_bytes-from_le_bytes}
use rdmalib.Meta.Message.{Message, max_frame}
use rdmalib.Meta.Encode.{encode_body, encode}
use rdmalib.Meta.Decode.{decode}
use rdmalib.Meta.Stream.{Stream, read_exact}
use rdmalib.Meta.Frame.{type_byte, read_payload, read_frame}
use rdmalib.Meta.Image.{IsMessage}
use rdmalib.Meta.Framing.{frame_len, encode_split}
use rdmalib.Meta.Canonical.{encode_body-decode}

read_exact-eq-ok :
    (n : ℕ) (s : Stream) {bs : List ℕ} {s' : Stream}
    → read_exact n s ≡ (ok bs, s')
    → (n ≤ length s.incoming)
      × (bs ≡ take n s.incoming)
      × (s' ≡ record s { incoming = drop n s.incoming })
unfolding read_exact
read_exact-eq-ok n s e = ground arith

-- The five bytes of a header.
header_bytes :
    (hs : List ℕ)
    → All IsByte hs
    → length hs ≡ 5
    → hs ≡ to_le_bytes 4 (from_le_bytes (take 4 hs)) ++ (type_byte hs ∷ [])
unfolding type_byte
header_bytes (a ∷ b ∷ c ∷ d ∷ e ∷ []) (ha, (hb, (hc, (hd, he)))) l =
    rw (to_le_bytes-from_le_bytes (a ∷ b ∷ c ∷ d ∷ []) (ha, (hb, (hc, (hd, tt)))))
header_bytes hs h l = absurd (omega arith)

-- What a payload that decodes says of the stream.
record Body (s s' : Stream) (len ty : ℕ) (msg : Message) : Type 0 where
  incoming : s.incoming ≡ (encode_body msg).1 ++ s'.incoming
  size : len ≡ frame_len msg
  code : (encode_body msg).0 ≡ ty
  valid : IsMessage msg

read_payload_inv :
    (len ty : ℕ) (s : Stream) {msg : Message} {s' : Stream}
    → All IsByte s.incoming
    → 0 < len
    → read_payload len ty s ≡ (ok msg, s')
    → Body s s' len ty msg
unfolding read_payload
read_payload_inv len ty s {msg} {s'} bytes pos e =
    let (payload, s₁, e₁, k) = >>=-eq-ok (read_exact (len - 1)) _ s e in
    let (room, front, left) = read_exact-eq-ok (len - 1) s e₁ in
    let decoded : decode ty (take (len - 1) s.incoming) ≡ ok msg =
      rw (← front) (ap (λ (p : IoResult Message × Stream). p.0) k) in
    let moved : s' ≡ record s { incoming = drop (len - 1) s.incoming } =
      sym (ap (λ (p : IoResult Message × Stream). p.1) k) ∙ left in
    let (image, valid) =
      encode_body-decode ty (take (len - 1) s.incoming) (All-take IsByte (len - 1) s.incoming bytes)
        decoded in
    let body : (encode_body msg).1 ≡ take (len - 1) s.incoming =
      ap (λ (p : ℕ × List ℕ). p.1) image in
    record {
      incoming =
          sym (take-append-drop (len - 1) s.incoming)
          ∙ ap₂ ◌++◌ (sym body) (sym (ap (λ (t : Stream). t.incoming) moved));
      size = omega (arith, ap length body, length-take (len - 1) s.incoming room);
      code = ap (λ (p : ℕ × List ℕ). p.0) image;
      valid = valid;
    }

accepted_len :
    (len ty : ℕ) (s : Stream) {msg : Message} {s' : Stream}
    → (if len == 0 || ltb max_frame len then raise invalid_data else read_payload len ty) s
      ≡ (ok msg, s')
    → (0 < len) × (len ≤ max_frame) × (read_payload len ty s ≡ (ok msg, s'))
accepted_len len ty s e = elim (Bool-cases (len == 0 || ltb max_frame len)) [
  | inl refused ↦ absurd (cc (rw refused at e))
  | inr fine ↦ (ground arith, ground arith, rw fine at e)
]

frame_joined :
    (s s₁ : Stream) (hs : List ℕ) (s' : Stream) (msg : Message)
    → s.incoming ≡ hs ++ s₁.incoming
    → s₁.incoming ≡ (encode_body msg).1 ++ s'.incoming
    → hs ≡ to_le_bytes 4 (frame_len msg) ++ ((encode_body msg).0 ∷ [])
    → frame_len msg ≤ max_frame
    → s.incoming ≡ encode msg ++ s'.incoming
frame_joined s s₁ hs s' msg e e₁ image fits =
    e
    ∙ ap₂ ◌++◌ image e₁
    ∙ sym (append_assoc _ (encode_body msg).1 s'.incoming)
    ∙ ap (λ t. t ++ s'.incoming) (sym (encode_split msg (omega arith)))

-- On a stream of bytes, a message received is the one whose frame, as `encode` writes it, stood
-- first on the stream, with the rest left; its length field is at most `max_frame`, and its fields
-- are in the range of their types.
pub read_frame_inv :
    (s : Stream) {msg : Message} {s' : Stream}
    → All IsByte s.incoming
    → read_frame s ≡ (ok msg, s')
    → (s.incoming ≡ encode msg ++ s'.incoming) × (frame_len msg ≤ max_frame) × IsMessage msg
unfolding read_frame
read_frame_inv s {msg} {s'} bytes e =
    let (hs, s₁, e₁, k) = >>=-eq-ok (read_exact 5) _ s e in
    let (room, front, left) = read_exact-eq-ok 5 s e₁ in
    let rest : s₁.incoming ≡ drop 5 s.incoming = ap (λ (t : Stream). t.incoming) left in
    let len : ℕ = from_le_bytes (take 4 hs) in
    let (pos, fits, parsed) = accepted_len len (type_byte hs) s₁ k in
    let body : Body s₁ s' len (type_byte hs) msg =
      read_payload_inv len (type_byte hs) s₁ (rw rest (All-drop IsByte 5 s.incoming bytes)) pos
        parsed in
    let five : length hs ≡ 5 = ap length front ∙ length-take 5 s.incoming room in
    let image : hs ≡ to_le_bytes 4 len ++ (type_byte hs ∷ []) =
      header_bytes hs (rw front (All-take IsByte 5 s.incoming bytes)) five in
    let short : frame_len msg ≤ max_frame = subst (λ k. k ≤ max_frame) body.size fits in
    (
      frame_joined s s₁ hs s' msg
          (sym (take-append-drop 5 s.incoming) ∙ ap₂ ◌++◌ (sym front) (sym rest)) body.incoming
          (image ∙ ap₂ (λ k t. to_le_bytes 4 k ++ (t ∷ [])) body.size (sym body.code)) short,
      short,
      body.valid,
    )
