-- ===== src/Meta/Framing.antt =====
-- Frames on a stream: `read_frame` against `encode`.
use rdmalib.Base.{
  ℕ, ◌+◌, ◌-◌, ◌≤◌, ◌<◌, ◌^◌, ◌≡◌, refl, sym, subst, ◌⊎◌, ap, ap₂, ◌∙◌, true, false, inr, List, [],
  ◌∷◌, ◌++◌, length, take, drop, length-append, take-append, drop-append, append_assoc, ◌==◌, ltb,
  le→ltb, lt→ltb, ◌||◌, if◌then◌else◌, arith,
}
use native.Mathlib.Decide.{dec_lt}
use rdmalib.Base.Io.{IoResult, ok, err, invalid_data}
use rdmalib.Base.Exec.{>>=-step, raise}
use rdmalib.Base.Words.{as_u32, to_le_bytes, from_le_bytes-to_le_bytes}
use rdmalib.Meta.Message.{Message, max_frame}
use rdmalib.Meta.Encode.{encode_body, encode, put_u32}
use rdmalib.Meta.Stream.{Stream, read_exact}
use rdmalib.Meta.Frame.{type_byte, read_payload, read_frame}
use rdmalib.Meta.Image.{IsMessage}
use rdmalib.Meta.RoundTrip.{decode-encode_body}

pub read_exact-append :
    (xs ys : List ℕ) (s : Stream)
    → s.incoming ≡ xs ++ ys
    → read_exact (length xs) s ≡ (ok xs, record s { incoming = ys })
unfolding read_exact
read_exact-append xs ys s e = rw (
  e,
  le→ltb (length (xs ++ ys)) (length xs) (omega (arith, length-append xs ys)),
  take-append,
  drop-append,
)

-- Past the end of what arrived, the stream's own error is reported.
pub read_exact_short :
    (n : ℕ) (s : Stream)
    → length s.incoming < n
    → read_exact n s ≡ (err s.fault, record s { incoming = [] })
unfolding read_exact
read_exact_short n s h = rw (lt→ltb _ _ h)

-- The type byte and the payload length that a message takes in its frame's length field.
abbrev pub frame_len : Message → ℕ
frame_len msg = 1 + length (encode_body msg).1

abbrev pub header : ℕ → ℕ → List ℕ
header n ty = to_le_bytes 4 n ++ (ty ∷ [])

pub encode_split :
    (msg : Message)
    → frame_len msg < 2 ^ 32
    → encode msg ≡ header (frame_len msg) (encode_body msg).0 ++ (encode_body msg).1
unfolding encode put_u32
encode_split msg h =
    let (ty, body) = encode_body msg in
    let len : as_u32 (1 + as_u32 (length (encode_body msg).1)) ≡ frame_len msg = omega arith in
    ap (λ k. to_le_bytes 4 k ++ (ty ∷ body)) len
    ∙ sym (append_assoc (to_le_bytes 4 (frame_len msg)) (ty ∷ []) body)

type_byte-header : (n ty : ℕ) → type_byte (header n ty) ≡ ty
unfolding type_byte to_le_bytes
type_byte-header n ty = refl

take-header : (n ty : ℕ) → take 4 (header n ty) ≡ to_le_bytes 4 n
unfolding to_le_bytes
take-header n ty = refl

length-header : (n ty : ℕ) → length (header n ty) ≡ 5
unfolding to_le_bytes
length-header n ty = refl

read_exact-header :
    (n ty : ℕ) (body : List ℕ) (s : Stream)
    → s.incoming ≡ header n ty ++ body
    → read_exact 5 s ≡ (ok (header n ty), record s { incoming = body })
read_exact-header n ty body s e =
    subst (λ k. read_exact k s ≡ (ok (header n ty), record s { incoming = body }))
      (length-header n ty) (read_exact-append (header n ty) body s e)

-- What `read_frame` makes of a header.
pub read_frame-header :
    (n ty : ℕ) (body : List ℕ) (s : Stream)
    → n < 2 ^ 32
    → s.incoming ≡ header n ty ++ body
    → read_frame s
      ≡ (if n == 0 || ltb max_frame n then raise invalid_data else read_payload n ty)
          (record s { incoming = body })
unfolding read_frame
read_frame-header n ty body s h e =
    >>=-step (read_exact 5) _ (read_exact-header n ty body s e)
    ∙ rw (take-header n ty, from_le_bytes-to_le_bytes 4 n h, type_byte-header n ty)

in_range : (n : ℕ) → 0 < n → n ≤ max_frame → (n == 0 || ltb max_frame n) ≡ false
in_range n h k = ground arith

out_of_range : (n : ℕ) → (n ≡ 0) ⊎ (max_frame < n) → (n == 0 || ltb max_frame n) ≡ true
out_of_range n h = ground arith

read_payload-encode :
    (msg : Message) (rest : List ℕ) (s : Stream)
    → IsMessage msg
    → s.incoming ≡ (encode_body msg).1 ++ rest
    → read_payload (frame_len msg) (encode_body msg).0 s ≡ (ok msg, record s { incoming = rest })
unfolding read_payload
read_payload-encode msg rest s valid e =
    let len : frame_len msg - 1 ≡ length (encode_body msg).1 = omega arith in
    let body : read_exact (frame_len msg - 1) s
        ≡ (ok (encode_body msg).1, record s { incoming = rest }) =
      rw len (read_exact-append (encode_body msg).1 rest s e) in
    >>=-step (read_exact (frame_len msg - 1)) _ body ∙ rw (decode-encode_body msg valid)

-- The frame of a message whose fields fit the wire and whose length field is at most `max_frame` is
-- read back as the message, whatever follows it, and what follows it is left on the stream.
pub read_frame-encode :
    (msg : Message) (rest : List ℕ) (s : Stream)
    → IsMessage msg
    → frame_len msg ≤ max_frame
    → s.incoming ≡ encode msg ++ rest
    → read_frame s ≡ (ok msg, record s { incoming = rest })
read_frame-encode msg rest s valid fits e =
    let body : List ℕ = (encode_body msg).1 in
    read_frame-header (frame_len msg) (encode_body msg).0 (body ++ rest) s (omega arith)
      (e ∙ rw (encode_split msg (omega arith)) (append_assoc _ body rest))
    ∙ rw (in_range (frame_len msg) (omega arith) fits)
        (read_payload-encode msg rest (record s { incoming = body ++ rest }) valid refl)

-- The frame of a message whose length field is past `max_frame`, and below 2^32, is refused as
-- invalid data, with the payload left unread.
pub read_frame-encode_too_long :
    (msg : Message) (rest : List ℕ) (s : Stream)
    → max_frame < frame_len msg
    → frame_len msg < 2 ^ 32
    → s.incoming ≡ encode msg ++ rest
    → read_frame s ≡ (err invalid_data, record s { incoming = (encode_body msg).1 ++ rest })
read_frame-encode_too_long msg rest s long fits e =
    let body : List ℕ = (encode_body msg).1 in
    read_frame-header (frame_len msg) (encode_body msg).0 (body ++ rest) s fits
      (e ∙ rw (encode_split msg fits) (append_assoc _ body rest))
    ∙ rw (out_of_range (frame_len msg) (inr long))

prefix_split :
    (h p f b : List ℕ) → h ++ p ≡ f ++ b → length h ≤ length f → f ≡ h ++ drop (length h) f
prefix_split [] p f b e l = refl
prefix_split (x ∷ h) p [] b e l = absurd (omega arith)
prefix_split (x ∷ h) p (y ∷ f) b e l =
    let same : y ≡ x = cc in ap₂ ◌∷◌ same (prefix_split h p f b (cc) (omega arith))

read_frame_short_header : (s : Stream) → length s.incoming < 5 → (read_frame s).0 ≡ err s.fault
unfolding read_frame
read_frame_short_header s h = rw (read_exact_short 5 s h)

read_payload_short :
    (n ty : ℕ) (s : Stream) → length s.incoming < n - 1 → (read_payload n ty s).0 ≡ err s.fault
unfolding read_payload
read_payload_short n ty s h = rw (read_exact_short (n - 1) s h)

read_frame_short_body :
    (n ty : ℕ) (body : List ℕ) (s : Stream)
    → 0 < n
    → n ≤ max_frame
    → s.incoming ≡ header n ty ++ body
    → length body < n - 1
    → (read_frame s).0 ≡ err s.fault
read_frame_short_body n ty body s pos fits e h =
    ap (λ (p : IoResult Message × Stream). p.0) (read_frame-header n ty body s (omega arith) e)
    ∙ rw (in_range n pos fits) (read_payload_short n ty (record s { incoming = body }) h)

-- Of a frame whose length field is at most `max_frame`, a stream that ends anywhere inside makes
-- the reader fail with the stream's own error.
pub read_frame_truncated :
    (msg : Message) (front back : List ℕ) (x : ℕ) (s : Stream)
    → frame_len msg ≤ max_frame
    → encode msg ≡ front ++ (x ∷ back)
    → s.incoming ≡ front
    → (read_frame s).0 ≡ err s.fault
read_frame_truncated msg front back x s fits cut e = elim (dec_lt (length front) 5) [
  | yes short ↦ read_frame_short_header s (rw e short)
  | no long ↦
      let n : ℕ = frame_len msg in
      let h : List ℕ = header n (encode_body msg).0 in
      let size : length h ≡ 5 = length-header n (encode_body msg).0 in
      let whole : h ++ (encode_body msg).1 ≡ front ++ (x ∷ back) =
        sym (encode_split msg (omega arith)) ∙ cut in
      let split : front ≡ h ++ drop (length h) front =
        prefix_split h _ front (x ∷ back) whole (omega arith) in
      let total : length h + length (encode_body msg).1 ≡ length front + length (x ∷ back) =
        sym (length-append h _) ∙ ap length whole ∙ length-append front _ in
      let part : length front ≡ length h + length (drop (length h) front) =
        ap length split ∙ length-append h _ in
      read_frame_short_body n (encode_body msg).0 (drop (length h) front) s (omega arith) fits
        (e ∙ split) (omega arith)
]
