-- ===== src/Exchange/Greeting.antt =====
-- The greeting of a session, on two channels without faults.
use rdmalib.Base.{ℕ, ◌≡◌, refl, ap, ◌∙◌, List, [], ◌++◌, append_assoc, arith}
use rdmalib.Base.Io.{ErrorKind, ok}
use rdmalib.Base.Exec.{>>=-step}
use rdmalib.Meta.Message.{Message, hello, welcome, want_group, protocol_version}
use rdmalib.Meta.Encode.{encode, encode_body, put_u16, put_u32}
use rdmalib.Base.Words.{to_le_bytes, IsU32}
use rdmalib.Meta.Stream.{Stream, write_all, system_call}
use rdmalib.Meta.Frame.{Channel, on_stream, write_frame, open_channel, send, receive}
use rdmalib.Remote.Client.{greeted, join_group}
use rdmalib.Provider.Service.{greeting, wanted_group, greet, send_exchange}
use rdmalib.Exchange.Channels.{IsSendable, receive-encode}

-- A stream without faults: what is to come, the error of a read past it, and what was sent.
abbrev pub clear : List ℕ → ErrorKind → List ℕ → Stream
clear incoming fault outgoing = record {
  incoming = incoming;
  fault = fault;
  outgoing = outgoing;
  faults = [];
}

abbrev pub link : List ℕ → ErrorKind → List ℕ → Channel
link incoming fault outgoing = record { stream = clear incoming fault outgoing }

-- What a reader says first.
abbrev pub asked : ℕ → List ℕ
asked group = encode (hello protocol_version) ++ encode (want_group group)

module _ (fault : ErrorKind) where
  pub open_channel-clear :
      (bytes out : List ℕ) → (open_channel (clear bytes fault out)).0 ≡ ok (link bytes fault out)
  unfolding open_channel system_call
  open_channel-clear bytes out = refl

  send-link :
      (msg : Message) (bytes out : List ℕ)
      → send msg (link bytes fault out) ≡ (ok tt, link bytes fault (out ++ encode msg))
  unfolding send on_stream write_frame write_all system_call
  send-link msg bytes out = refl

  receive-link :
      (msg : Message) (rest out : List ℕ)
      → IsSendable msg
      → receive (link (encode msg ++ rest) fault out) ≡ (ok msg, link rest fault out)
  receive-link msg rest out h = receive-encode msg rest (link (encode msg ++ rest) fault out) h refl

  pub send_exchange-link :
      (first second : Message) (bytes out : List ℕ)
      → send_exchange (first, second) (link bytes fault out)
        ≡ (ok tt, link bytes fault ((out ++ encode first) ++ encode second))
  unfolding send_exchange
  send_exchange-link first second bytes out =
      >>=-step (send first) _ (send-link first bytes out)
      ∙ send-link second bytes (out ++ encode first)

  hello-IsSendable : IsSendable (hello protocol_version)
  unfolding encode_body put_u16 to_le_bytes
  hello-IsSendable = record { valid = omega arith; fits = omega arith }

  welcome-IsSendable : IsSendable (welcome protocol_version)
  unfolding encode_body put_u16 to_le_bytes
  welcome-IsSendable = record { valid = omega arith; fits = omega arith }

  want_group-IsSendable : (group : ℕ) → IsU32 group → IsSendable (want_group group)
  unfolding encode_body put_u32 to_le_bytes
  want_group-IsSendable group h = record { valid = h; fits = omega arith }

  -- The provider's half.
  pub greet-link :
      (group : ℕ) (rest out : List ℕ)
      → IsU32 group
      → greet (link (asked group ++ rest) fault out)
        ≡ (ok group, link rest fault (out ++ encode (welcome protocol_version)))
  unfolding greet greeting wanted_group
  greet-link group rest out h =
      ap (λ l. greet (link l fault out)) (append_assoc (encode (hello protocol_version)) _ rest)
      ∙ >>=-step receive _ (receive-link (hello protocol_version) _ out hello-IsSendable)
      ∙ >>=-step (send (welcome protocol_version)) _ (send-link _ _ out)
      ∙ >>=-step receive _ (
          receive-link (want_group group) rest (out ++ encode (welcome protocol_version))
            (want_group-IsSendable group h))

  -- The reader's half.
  pub join_group-link :
      (group : ℕ) (rest out : List ℕ)
      → join_group group (link (encode (welcome protocol_version) ++ rest) fault out)
        ≡ (ok tt, link rest fault (out ++ asked group))
  unfolding join_group greeted
  join_group-link group rest out =
      >>=-step (send (hello protocol_version)) _ (send-link _ _ out)
      ∙ >>=-step receive _ (
          receive-link (welcome protocol_version) rest (out ++ encode (hello protocol_version))
            welcome-IsSendable)
      ∙ send-link (want_group group) rest (out ++ encode (hello protocol_version))
      ∙ ap (λ l. (ok tt, link rest fault l)) (append_assoc out _ _)
