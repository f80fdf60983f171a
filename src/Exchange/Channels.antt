-- ===== src/Exchange/Channels.antt =====
-- What is sent on a channel is what is received at the other end.
use rdmalib.Base.{ℕ, ◌≤◌, ◌≡◌, refl, ap, ◌∙◌, List, ◌++◌, append_assoc, arith}
use rdmalib.Base.Io.{IoResult, ok}
use rdmalib.Base.Exec.{>>=-eq-ok, >>=-step}
use rdmalib.Meta.Message.{Message, max_frame}
use rdmalib.Meta.Encode.{encode}
use rdmalib.Meta.Stream.{Stream, write_all}
use rdmalib.Meta.Frame.{Channel, on_stream, write_frame, send, receive}
use rdmalib.Meta.Image.{IsMessage}
use rdmalib.Meta.Framing.{frame_len, read_frame-encode}
use rdmalib.Remote.Client.{receive_exchange}
use rdmalib.Provider.Service.{send_exchange}

abbrev pub sent : Channel → List ℕ
sent c = c.stream.outgoing

-- A message that can be sent and read back.
pub record IsSendable (msg : Message) : Type 0 where
  pub valid : IsMessage msg
  pub fits : frame_len msg ≤ max_frame

send-ok :
    (msg : Message) (c : Channel) {c' : Channel}
    → send msg c ≡ (ok tt, c')
    → sent c' ≡ sent c ++ encode msg
unfolding send on_stream write_frame write_all
send-ok msg c e = ground arith

pub send_exchange-ok :
    (first second : Message) (c : Channel) {c' : Channel}
    → send_exchange (first, second) c ≡ (ok tt, c')
    → sent c' ≡ sent c ++ (encode first ++ encode second)
unfolding send_exchange
send_exchange-ok first second c {c'} e =
    let (t, c₁, e₁, e₂) = >>=-eq-ok (send first) _ c e in
    send-ok second c₁ e₂
    ∙ ap (λ l. l ++ encode second) (send-ok first c e₁)
    ∙ append_assoc (sent c) (encode first) (encode second)

-- The channel, with these bytes still to come.
abbrev pub left : Channel → List ℕ → Channel
left c rest = record { stream = record (c.stream) { incoming = rest } }

pub receive-encode :
    (msg : Message) (rest : List ℕ) (c : Channel)
    → IsSendable msg
    → c.stream.incoming ≡ encode msg ++ rest
    → receive c ≡ (ok msg, left c rest)
unfolding receive on_stream
receive-encode msg rest c h e =
    ap (λ (r : IoResult Message × Stream). (r.0, record { stream = r.1 }))
      (read_frame-encode msg rest c.stream h.valid h.fits e)

pub receive_exchange-encode :
    (first second : Message) (rest : List ℕ) (c : Channel)
    → IsSendable first
    → IsSendable second
    → c.stream.incoming ≡ (encode first ++ encode second) ++ rest
    → receive_exchange c ≡ (ok (first, second), left c rest)
unfolding receive_exchange
receive_exchange-encode first second rest c h k e =
    >>=-step receive _
      (receive-encode first (encode second ++ rest) c h (e ∙ append_assoc (encode first) _ rest))
    ∙ >>=-step receive _ (receive-encode second rest (left c (encode second ++ rest)) k refl)
