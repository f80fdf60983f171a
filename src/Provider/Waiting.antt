-- ===== src/Provider/Waiting.antt =====
-- The session thread: its loop ends, and it answers what it is asked.
use rdmalib.Base.{
  ℕ, ◌<◌, ◌≡◌, refl, sym, ap, ◌∙◌, inl, inr, some, Bool, true, false, Bool-cases, List, [], ◌∷◌,
  length, arith,
}
use rdmalib.Base.Io.{IoResult, ok, err, IoResult-cases}
use rdmalib.Base.Exec.{continue}
use rdmalib.Meta.Message.{Message, hello, welcome, want_group, update, metadata, tuples}
use rdmalib.Meta.Stream.{read_exact, write_all}
use rdmalib.Meta.Frame.{Channel, on_stream, read_frame, write_frame, send, receive}
use rdmalib.Meta.Consuming.{receive_length}
use rdmalib.Rdma.Calls.{Library}
use rdmalib.Provider.State.{Sharing, catalog_and_tuples}
use rdmalib.Provider.Service.{send_exchange, answer_update, next_round, wait_for_updates}

abbrev to_come : Channel → ℕ
to_come c = length c.stream.incoming

to_come-send : (msg : Message) (c : Channel) → to_come (send msg c).1 ≡ to_come c
unfolding send on_stream write_frame write_all
to_come-send msg c = ground arith

to_come-send_exchange :
    (exchange : Message × Message) (c : Channel) → to_come (send_exchange exchange c).1 ≡ to_come c
unfolding send_exchange
to_come-send_exchange (first, second) c = go (send first c) refl
  where
    go :
        (p : IoResult (Unit {0}) × Channel)
        → send first c ≡ p
        → to_come (continue p.0 (λ t. send second) p.1).1 ≡ to_come c
    go (ok t, c₁) e =
        to_come-send second c₁
        ∙ sym (ap (λ (q : IoResult (Unit {0}) × Channel). to_come q.1) e)
        ∙ to_come-send first c
    go (err x, c₁) e =
        sym (ap (λ (q : IoResult (Unit {0}) × Channel). to_come q.1) e) ∙ to_come-send first c

module _ (lib : Library) (group : ℕ) where
  -- A round after which the session goes on has taken a request off the channel.
  to_come-answer_update :
      (p : IoResult Message × Channel) (s : Sharing lib)
      → (answer_update lib group p s).0 ≡ true
      → to_come (answer_update lib group p s).1 ≡ to_come p.1
  unfolding answer_update
  to_come-answer_update (ok update, c) s e =
      elim (IoResult-cases (send_exchange (catalog_and_tuples lib group s).0 c).0) [
        | inl (t, done) ↦
            rw (done, answer_update) (to_come-send_exchange (catalog_and_tuples lib group s).0 c)
        | inr (x, failed) ↦ cc (rw (failed, answer_update) at e)
      ]
  to_come-answer_update (ok (hello v), c) s e = refl
  to_come-answer_update (ok (welcome v), c) s e = refl
  to_come-answer_update (ok (want_group g), c) s e = refl
  to_come-answer_update (ok (metadata rs), c) s e = refl
  to_come-answer_update (ok (tuples g ts), c) s e = refl
  to_come-answer_update (err x, c) s e = refl

  more_only_ok :
      (p : IoResult Message × Channel) (s : Sharing lib)
      → (answer_update lib group p s).0 ≡ true
      → (msg : Message) × (p.0 ≡ ok msg)
  unfolding answer_update
  more_only_ok (ok msg, c) s e = (msg, refl)
  more_only_ok (err x, c) s e = cc

  to_come-next_round :
      (shutdown : Bool) (c : Channel) (s : Sharing lib)
      → (next_round lib group shutdown c s).0 ≡ true
      → to_come (next_round lib group shutdown c s).1 < to_come c
  unfolding next_round
  to_come-next_round true c s e = cc
  to_come-next_round false c s e =
      let (msg, got) = more_only_ok (receive c) s e in
      omega (
        arith,
        to_come-answer_update (receive c) s e,
        receive_length c {msg = msg} {c' = (receive c).1} (ap (λ r. (r, (receive c).1)) got),
      )

  -- The session thread ends: each round that goes on has consumed a request, so with more rounds
  -- than bytes still to come the loop returns, whatever the peer is, one that stays connected but
  -- silent included, and also if no round finds the shutdown flag set.
  pub wait_for_updates_ends :
      (flags : List Bool) (c : Channel) (s : Sharing lib)
      → length c.stream.incoming < length flags
      → (c' : Channel) × (s' : Sharing lib) × (wait_for_updates lib group flags c s ≡ some (c', s'))
  unfolding wait_for_updates
  wait_for_updates_ends [] c s enough = absurd (omega arith)
  wait_for_updates_ends (shutdown ∷ flags) c s enough =
      elim (Bool-cases (next_round lib group shutdown c s).0) [
        | inl more ↦
            let (c', s', e) =
              wait_for_updates_ends flags (next_round lib group shutdown c s).1
                (next_round lib group shutdown c s).2
                (omega (arith, to_come-next_round shutdown c s more)) in
            (c', s', rw (more, wait_for_updates) e)
        | inr done ↦ (
          (next_round lib group shutdown c s).1,
          (next_round lib group shutdown c s).2,
          rw (done, wait_for_updates),
        )
      ]

  -- A session whose round finds the shutdown flag unset, and to which fewer bytes come than a frame's
  -- header has before a read fails, with whatever error (the end of the stream or the read timeout of
  -- a peer that is merely silent), ends in that round: those bytes are consumed, nothing is sent, and
  -- neither the shared state nor the host changes.
  pub wait_for_updates_silent :
      (flags : List Bool) (c : Channel) (s : Sharing lib)
      → length c.stream.incoming < 5
      → wait_for_updates lib group (false ∷ flags) c s
        ≡ some (record { stream = record (c.stream) { incoming = [] } }, s)
  unfolding wait_for_updates next_round answer_update receive on_stream read_frame read_exact
  wait_for_updates_silent flags c s few = ground arith
