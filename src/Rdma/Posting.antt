-- ===== src/Rdma/Posting.antt =====
-- One-sided operations as a whole: what is refused, what is posted, what success means.
use rdmalib.Base.{
  ℕ, suc, ◌+◌, ◌≤◌, ◌<◌, ◌≡◌, inl, inr, refl, sym, ap, ap₂, ◌∙◌, Bool, true, false, Bool-cases,
  Option-cases, Option, some, List, [], ◌∷◌, ◌++◌, append_assoc, All, arith,
}
use rdmalib.Base.Int.{is_zero}
use rdmalib.Base.Io.{IoResult, ErrorKind, ok, err, other, invalid_input, IoResult-cases}
use rdmalib.Base.Exec.{continue}
use rdmalib.Rdma.Calls.{Library, Host, Call, SendWr, ask, call, check, post_send, id_qp, now}
use rdmalib.Rdma.Domain.{MemoryRegion, ProtectionDomain}
use rdmalib.Rdma.OneSided.{
  Connection, poll_timeout, wait_completion, send_wr, post, admit, Rdma, await, one_sided,
  bump_wr_id,
}
use rdmalib.Rdma.Waiting.{
  Ticking, now_reads, wait_completion-Ends, wait_completion_inv, Waited, Completed, IsWait,
  admit_invalid,
}

module _ (lib : Library) (id : ℕ) (wr : SendWr) (h : Host lib.World) where
  abbrev pub queue : ℕ
  queue = (ask lib (id_qp id) h).0

  abbrev sent : Host lib.World
  sent = (ask lib (post_send queue wr) (ask lib (id_qp id) h).1).1

  abbrev code_is_zero : Bool
  code_is_zero = is_zero (ask lib (post_send queue wr) (ask lib (id_qp id) h).1).0

  post_accepted :
      code_is_zero ≡ true
      → post lib id wr h ≡ (ok ((ask lib now sent).0 + poll_timeout), (ask lib now sent).1)
  unfolding post call check
  post_accepted e = rw (e, continue)

  post_refused : code_is_zero ≡ false → post lib id wr h ≡ (err other, sent)
  unfolding post call check
  post_refused e = rw (e, continue)

  posted_log : (ask lib now sent).1.log ≡ h.log ++ (id_qp id ∷ post_send queue wr ∷ now ∷ [])
  unfolding ask
  posted_log = simp append_assoc

  post_log :
      (deadline : ℕ)
      → (post lib id wr h).0 ≡ ok deadline
      → (post lib id wr h).1.log ≡ h.log ++ (id_qp id ∷ post_send queue wr ∷ now ∷ [])
  post_log deadline e = elim (Bool-cases code_is_zero) [
    | inl zero ↦ rw (post_accepted zero) posted_log
    | inr failed ↦
        cc (sym (ap (λ (p : IoResult ℕ × Host lib.World). p.0) (post_refused failed)) ∙ e)
  ]

  post_deadline :
      (clock : Ticking lib) (deadline : ℕ)
      → (post lib id wr h).0 ≡ ok deadline
      → deadline ≤ clock.time (post lib id wr h).1.world + poll_timeout
  post_deadline clock deadline e = elim (Bool-cases code_is_zero) [
    | inl zero ↦
        let at : (ask lib now sent).0 + poll_timeout ≡ deadline =
          cc (sym (ap (λ (p : IoResult ℕ × Host lib.World). p.0) (post_accepted zero)) ∙ e) in
        rw (post_accepted zero) (omega (arith, now_reads lib clock sent))
    | inr failed ↦
        cc (sym (ap (λ (p : IoResult ℕ × Host lib.World). p.0) (post_refused failed)) ∙ e)
  ]

-- An operation that reports success: it was within its region, it posted one request and then only
-- waited, and the device completed that very request.
pub record Succeeded (lib : Library) (opcode : ℕ) (mr : MemoryRegion) (remote_addr rkey len : ℕ)
    (s s' : Rdma lib) : Type 0 where
  pub admitted : admit lib s.conn mr len ≡ ok tt
  pub conn : s'.conn ≡ bump_wr_id lib s.conn
  pub qp : ℕ
  pub waits : List Call
  pub log :
      s'.host.log
      ≡ s.host.log
        ++ (id_qp s.conn.id
            ∷ post_send qp (send_wr lib s.conn.next_wr_id opcode mr remote_addr rkey len)
            ∷ now
            ∷ waits)
  pub only_waits : All (IsWait s.conn.cq) waits
  pub completed : Completed lib s.conn.cq s.conn.next_wr_id s'.host

module _ (lib : Library) (opcode : ℕ) (mr : MemoryRegion) (remote_addr rkey len : ℕ) where
  abbrev request : Connection → SendWr
  request conn = send_wr lib conn.next_wr_id opcode mr remote_addr rkey len

  abbrev attempt : Rdma lib → IoResult ℕ × Host lib.World
  attempt s = post lib s.conn.id (request s.conn) s.host

  one_sided_admitted :
      (fuel : ℕ) (s : Rdma lib)
      → admit lib s.conn mr len ≡ ok tt
      → one_sided lib fuel opcode mr remote_addr rkey len s
        ≡ await lib fuel (bump_wr_id lib s.conn) s.conn.next_wr_id (attempt s)
  unfolding one_sided
  one_sided_admitted fuel s e = rw (e, one_sided)

  one_sided_refused :
      (fuel : ℕ) (s : Rdma lib) {x : ErrorKind}
      → admit lib s.conn mr len ≡ err x
      → one_sided lib fuel opcode mr remote_addr rkey len s ≡ some (err x, s)
  unfolding one_sided
  one_sided_refused fuel s e = rw (e, one_sided)

  -- On a connection that has a domain, a length of zero, one past the region, or a region of
  -- another domain is an invalid input: no C call is made, and no request id is used up.
  pub one_sided_rejects :
      (fuel : ℕ) (s : Rdma lib) (pd : ProtectionDomain)
      → s.conn.pd ≡ some pd
      → ¬ ((0 < len) × (len ≤ mr.size) × (mr.pd ≡ pd.pd))
      → one_sided lib fuel opcode mr remote_addr rkey len s ≡ some (err invalid_input, s)
  one_sided_rejects fuel s pd has bad =
      one_sided_refused fuel s (admit_invalid lib mr len s.conn pd has bad)

  abbrev OneSidedEnds : ℕ → Rdma lib → Type 0
  OneSidedEnds fuel s =
      (r : IoResult (Unit {0})) × (s' : Rdma lib) × (one_sided lib fuel opcode mr remote_addr rkey
          len s
        ≡ some (r, s'))

  await_ends :
      (clock : Ticking lib) (fuel : ℕ) (conn : Connection) (wr_id : ℕ)
      (p : IoResult ℕ × Host lib.World)
      → ((deadline : ℕ) → p.0 ≡ ok deadline → deadline ≤ clock.time p.1.world + suc fuel)
      → (r : IoResult (Unit {0})) × (s' : Rdma lib) × (await lib (suc fuel) conn wr_id p
          ≡ some (r, s'))
  unfolding await
  await_ends clock fuel conn wr_id (err e, h) le = (err e, record { conn = conn; host = h }, refl)
  await_ends clock fuel conn wr_id (ok deadline, h) le =
      let (r, h', e) =
        wait_completion-Ends lib conn.cq wr_id deadline clock fuel h (le deadline refl) in
      (r, record { conn = conn; host = h' }, rw (e, await))

  -- On a monotonic clock on which every poll takes time, and with a fuel past the timeout, an
  -- operation has an outcome, whatever the device answers.
  pub one_sided_ends :
      (clock : Ticking lib) (fuel : ℕ) (s : Rdma lib)
      → poll_timeout ≤ fuel
      → OneSidedEnds (suc fuel) s
  one_sided_ends clock fuel s enough = elim (IoResult-cases (admit lib s.conn mr len)) [
    | inr (x, e) ↦ (err x, s, one_sided_refused (suc fuel) s e)
    | inl (_, e) ↦
        let (r, s', ends) =
          await_ends clock fuel (bump_wr_id lib s.conn) s.conn.next_wr_id (attempt s) (λ deadline p.
            omega (arith, post_deadline lib s.conn.id (request s.conn) s.host clock deadline p)) in
        (r, s', one_sided_admitted (suc fuel) s e ∙ ends)
  ]

  await-ok :
      (fuel : ℕ) (conn : Connection) (wr_id : ℕ) (p : IoResult ℕ × Host lib.World) {s' : Rdma lib}
      → await lib fuel conn wr_id p ≡ some (ok tt, s')
      → (deadline : ℕ) × (p.0 ≡ ok deadline)
        × (s'.conn ≡ conn)
        × (wait_completion lib fuel conn.cq wr_id deadline p.1 ≡ some (ok tt, s'.host))
  unfolding await
  await-ok fuel conn wr_id (err x, h) e = cc
  await-ok fuel conn wr_id (ok deadline, h) {s'} e =
      elim (Option-cases (wait_completion lib fuel conn.cq wr_id deadline h)) [
        | inl n ↦ cc (rw (n, await) at e)
        | inr ((r, h'), n) ↦
            let k : ◌≡◌ {A = Option (IoResult (Unit {0}) × Rdma lib)}
                (some (r, record { conn = conn; host = h' })) (some (ok tt, s')) =
              rw (n, await) at e in
            let outcome : r ≡ ok tt = cc in
            let state : (record { conn = conn; host = h' }) ≡ s' = cc in
            (
              deadline,
              refl,
              sym (ap (λ (t : Rdma lib). t.conn) state),
              n ∙ ap₂ (λ o (t : Rdma lib). some (o, t.host)) outcome state,
            )
      ]

  attempt-ok :
      (s : Rdma lib) (deadline : ℕ)
      → (attempt s).0 ≡ ok deadline
      → (attempt s).1.log
        ≡ s.host.log
          ++ (id_qp s.conn.id
              ∷ post_send (queue lib s.conn.id (request s.conn) s.host) (request s.conn)
              ∷ now
              ∷ [])
  attempt-ok s deadline e = post_log lib s.conn.id (request s.conn) s.host deadline e

  pub one_sided-Succeeded :
      (fuel : ℕ) (s : Rdma lib) {s' : Rdma lib}
      → one_sided lib fuel opcode mr remote_addr rkey len s ≡ some (ok tt, s')
      → Succeeded lib opcode mr remote_addr rkey len s s'
  unfolding bump_wr_id
  one_sided-Succeeded fuel s {s'} e = elim (IoResult-cases (admit lib s.conn mr len)) [
    | inr (x, refused) ↦ cc (sym (one_sided_refused fuel s refused) ∙ e)
    | inl (_, admitted) ↦
        let (deadline, p, conn, w) =
          await-ok fuel (bump_wr_id lib s.conn) s.conn.next_wr_id (attempt s)
            (sym (one_sided_admitted fuel s admitted) ∙ e) in
        let waited : Waited lib s.conn.cq s.conn.next_wr_id deadline (attempt s).1 (ok tt) s'.host =
          wait_completion_inv lib _ s.conn.next_wr_id deadline fuel (attempt s).1 w in
        record {
          admitted = admitted;
          conn = conn;
          qp = queue lib s.conn.id (request s.conn) s.host;
          waits = waited.calls;
          log =
              waited.log
              ∙ ap (λ l. l ++ waited.calls) (attempt-ok s deadline p)
              ∙ append_assoc s.host.log _ waited.calls;
          only_waits = waited.waits;
          completed = waited.completed refl;
        }
  ]
