-- ===== src/Rdma/Waiting.antt =====
-- The wait for a completion: it ends, and it reports success only of its own request.
use rdmalib.Base.{
  subst₂, ℕ, zero, suc, ◌+◌, ◌≤◌, ◌<◌, ◌≡◌, ◌⊎◌, inl, inr, refl, sym, ap, ◌∙◌, Bool, true, false,
  Bool-cases, Option-cases, Option, none, some, List, [], ◌∷◌, ◌++◌, append_assoc, leb, All, arith,
}
use rdmalib.Base.Int.{ℤ, pos, negsuc, is_zero}
use rdmalib.Base.Io.{IoResult, ok, err, timed_out, invalid_input}
use rdmalib.Rdma.Calls.{Library, Host, Call, Completion, ask, check, poll_cq, now}
use rdmalib.Rdma.Domain.{MemoryRegion, ProtectionDomain}
use rdmalib.Rdma.OneSided.{Connection, polled, wait_completion, admit}

-- A monotonic clock, on which a poll takes time: what `Instant` documents, and that no poll is free.
pub record Ticking (lib : Library) : Type 0 where
  pub time : lib.World → ℕ
  pub reads : (w : lib.World) → (lib.respond now w).0 ≡ time (lib.respond now w).1
  pub keeps : (w : lib.World) → time w ≤ time (lib.respond now w).1
  pub passes : (cq : ℕ) (w : lib.World) → time w < time (lib.respond (poll_cq cq) w).1

pub now_reads :
    (lib : Library) (clock : Ticking lib) (h : Host lib.World)
    → (ask lib now h).0 ≡ clock.time (ask lib now h).1.world
unfolding ask
now_reads lib clock h = clock.reads h.world

-- The last poll handed out the completion of this request, and its status was success.
pub record Completed (lib : Library) (cq wr_id : ℕ) (h' : Host lib.World) : Type 0 where
  pub before : Host lib.World
  pub completion : Completion
  pub answered : (ask lib (poll_cq cq) before).0 ≡ (pos 1, completion)
  pub mine : completion.wr_id ≡ wr_id
  pub success : is_zero completion.status ≡ true
  pub host : h' ≡ (ask lib (poll_cq cq) before).1

abbrev pub IsWait : ℕ → Call → Type 0
IsWait cq c = (c ≡ poll_cq cq) ⊎ (c ≡ now)

module _ (lib : Library) (cq wr_id deadline : ℕ) where
  -- The host after a poll, and after the look at the clock that follows it.
  abbrev after_poll : Host lib.World → Host lib.World
  after_poll h = (ask lib (poll_cq cq) h).1

  abbrev after_round : Host lib.World → Host lib.World
  after_round h = (ask lib now (after_poll h)).1

  abbrev verdict : Host lib.World → Option (IoResult (Unit {0}))
  verdict h = polled wr_id (ask lib (poll_cq cq) h).0

  abbrev is_late : Host lib.World → Bool
  is_late h = leb deadline (ask lib now (after_poll h)).0

  module _ (fuel : ℕ) (h : Host lib.World) where
    round_decided :
        {o : IoResult (Unit {0})}
        → verdict h ≡ some o
        → wait_completion lib (suc fuel) cq wr_id deadline h ≡ some (o, after_poll h)
    unfolding wait_completion
    round_decided e = rw (e, wait_completion)

    round_late :
        verdict h ≡ none
        → is_late h ≡ true
        → wait_completion lib (suc fuel) cq wr_id deadline h ≡ some (err timed_out, after_round h)
    unfolding wait_completion
    round_late e late = rw (e, wait_completion) (rw late)

    round_again :
        verdict h ≡ none
        → is_late h ≡ false
        → wait_completion lib (suc fuel) cq wr_id deadline h
          ≡ wait_completion lib fuel cq wr_id deadline (after_round h)
    unfolding wait_completion
    round_again e early = rw (e, wait_completion) (rw early)

  abbrev Ends : ℕ → Host lib.World → Type 0
  Ends fuel h =
      (r : IoResult (Unit {0})) × (h' : Host lib.World) × (wait_completion lib fuel cq wr_id
          deadline h
        ≡ some (r, h'))

  -- A round takes time.
  round_passes :
      (clock : Ticking lib) (h : Host lib.World)
      → (clock.time h.world < clock.time (after_round h).world)
        × ((ask lib now (after_poll h)).0 ≡ clock.time (after_round h).world)
  unfolding ask
  round_passes clock h = (
    omega (arith, clock.passes cq h.world, clock.keeps (lib.respond (poll_cq cq) h.world).1),
    clock.reads (lib.respond (poll_cq cq) h.world).1,
  )

  late_enough :
      (clock : Ticking lib) (h : Host lib.World)
      → deadline ≤ clock.time h.world + 1
      → is_late h ≡ true
  late_enough clock h le = ground (arith, round_passes clock h)

  -- With as many rounds as the deadline is away, and one more, the wait ends.
  pub wait_completion-Ends :
      (clock : Ticking lib) (fuel : ℕ) (h : Host lib.World)
      → deadline ≤ clock.time h.world + suc fuel
      → Ends (suc fuel) h
  wait_completion-Ends clock zero h le = elim (Option-cases (verdict h)) [
    | inr (o, e) ↦ (o, after_poll h, round_decided zero h e)
    | inl e ↦
        (err timed_out, after_round h, round_late zero h e (late_enough clock h (omega arith)))
  ]
  wait_completion-Ends clock (suc fuel) h le = elim (Option-cases (verdict h)) [
    | inr (o, e) ↦ (o, after_poll h, round_decided (suc fuel) h e)
    | inl e ↦ elim (Bool-cases (is_late h)) [
      | inl late ↦ (err timed_out, after_round h, round_late (suc fuel) h e late)
      | inr early ↦
          let (r, h', rest) =
            wait_completion-Ends clock fuel (after_round h) (omega (arith, round_passes clock h)) in
          (r, h', round_again (suc fuel) h e early ∙ rest)
    ]
  ]

  polled-ok :
      (answer : ℤ × Completion)
      → polled wr_id answer ≡ some (ok tt)
      → (answer.0 ≡ pos 1) × (answer.1.wr_id ≡ wr_id) × (is_zero answer.1.status ≡ true)
  unfolding polled check
  polled-ok (pos n, wc) e = ground arith
  polled-ok (negsuc n, wc) e = ground arith

  decided-Completed :
      (h : Host lib.World) → verdict h ≡ some (ok tt) → Completed lib cq wr_id (after_poll h)
  decided-Completed h e =
      let (one, mine, success) = polled-ok (ask lib (poll_cq cq) h).0 e in
      record {
        before = h;
        completion = (ask lib (poll_cq cq) h).0.1;
        answered = ap (λ (r : ℤ). (r, (ask lib (poll_cq cq) h).0.1)) one;
        mine = mine;
        success = success;
        host = refl;
      }

  -- A wait that ended: the calls that it added to the log, and what its success means.
  pub record Waited (h : Host lib.World) (r : IoResult (Unit {0})) (h' : Host lib.World)
      : Type 0 where
    pub calls : List Call
    pub log : h'.log ≡ h.log ++ calls
    pub waits : All (IsWait cq) calls
    pub completed : r ≡ ok tt → Completed lib cq wr_id h'

  round_log : (h : Host lib.World) → (after_round h).log ≡ h.log ++ (poll_cq cq ∷ now ∷ [])
  unfolding ask
  round_log h = append_assoc h.log (poll_cq cq ∷ []) (now ∷ [])

  Waited-decided :
      (h : Host lib.World) (o : IoResult (Unit {0}))
      → verdict h ≡ some o
      → Waited h o (after_poll h)
  unfolding ask
  Waited-decided h o e = record {
    calls = poll_cq cq ∷ [];
    log = refl;
    waits = (inl refl, tt);
    completed = λ k. decided-Completed h (rw (← k) e);
  }

  Waited-late : (h : Host lib.World) → Waited h (err timed_out) (after_round h)
  Waited-late h = record {
    calls = poll_cq cq ∷ now ∷ [];
    log = round_log h;
    waits = (inl refl, (inr refl, tt));
    completed = λ k. cc;
  }

  Waited-again :
      (h : Host lib.World) {r : IoResult (Unit {0})} {h' : Host lib.World}
      → Waited (after_round h) r h'
      → Waited h r h'
  Waited-again h w = record {
    calls = poll_cq cq ∷ now ∷ w.calls;
    log =
        w.log
        ∙ ap (λ l. l ++ w.calls) (round_log h)
        ∙ append_assoc h.log (poll_cq cq ∷ now ∷ []) w.calls;
    waits = (inl refl, (inr refl, w.waits));
    completed = w.completed;
  }

  -- The wait only polls and looks at the clock, and reports success only of its own request.
  pub wait_completion_inv :
      (fuel : ℕ) (h : Host lib.World) {r : IoResult (Unit {0})} {h' : Host lib.World}
      → wait_completion lib fuel cq wr_id deadline h ≡ some (r, h')
      → Waited h r h'
  wait_completion_inv zero h e = unfold wait_completion in cc
  wait_completion_inv (suc fuel) h {r} {h'} e = elim (Option-cases (verdict h)) [
    | inr (o, d) ↦ same (Waited-decided h o d) (round_decided fuel h d)
    | inl u ↦ elim (Bool-cases (is_late h)) [
      | inl late ↦ same (Waited-late h) (round_late fuel h u late)
      | inr early ↦
          Waited-again h
            (wait_completion_inv fuel (after_round h) (sym (round_again fuel h u early) ∙ e))
    ]
  ]
    where
      same :
          {o : IoResult (Unit {0})} {k : Host lib.World}
          → Waited h o k
          → wait_completion lib (suc fuel) cq wr_id deadline h ≡ some (o, k)
          → Waited h r h'
      same {o} {k} w p =
          let outcome : o ≡ r = cc in let host : k ≡ h' = cc in subst₂ (Waited h) outcome host w

-- An operation is admitted exactly when its length is positive and within the region, and the
-- region is registered in the connection's domain.
module _ (lib : Library) (mr : MemoryRegion) (len : ℕ) (conn : Connection)
    (pd : ProtectionDomain) where
  pub admit-ok :
      conn.pd ≡ some pd
      → admit lib conn mr len ≡ ok tt
      → (0 < len) × (len ≤ mr.size) × (mr.pd ≡ pd.pd)
  unfolding admit
  admit-ok has e = ground arith

  pub admit_invalid :
      conn.pd ≡ some pd
      → ¬ ((0 < len) × (len ≤ mr.size) × (mr.pd ≡ pd.pd))
      → admit lib conn mr len ≡ err invalid_input
  unfolding admit
  admit_invalid e bad = rw (e, admit) (ground arith)
