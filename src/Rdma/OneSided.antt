-- ===== src/Rdma/OneSided.antt =====
-- src/rdma/verbs.rs: `Connection`, its reads and writes.
use rdmalib.Base.{
  ℕ, zero, suc, ◌+◌, ◌*◌, ◌%◌, ◌^◌, Option, none, some, true, false, ltb, leb, ◌==◌, ◌&&◌,
  if◌then◌else◌,
}
use rdmalib.Base.Int.{ℤ, pos, is_zero, is_negative, neg, eq_int}
use rdmalib.Base.Io.{IoResult, ok, err, invalid_input, timed_out, other, panicked}
use rdmalib.Base.Exec.{Exec, ◌>>=◌, ◌>>◌, pure, lift}
use rdmalib.Base.Words.{as_u32}
use rdmalib.Rdma.Calls.{
  Library, Host, Completion, SendWr, ask, call, check, post_send, poll_cq, id_qp, now,
}
use rdmalib.Rdma.Domain.{MemoryRegion, ProtectionDomain, register_addr}

pub record Connection : Type 0 where
  pub id : ℕ
  pub cq : ℕ
  pub pd : Option ProtectionDomain
  pub event_channel : ℕ
  pub next_wr_id : ℕ

-- The library's `usize` and `u64` are 64 bits wide.
abbrev pub ibv_wr_rdma_write : ℕ
ibv_wr_rdma_write = 0

abbrev pub ibv_wr_rdma_read : ℕ
ibv_wr_rdma_read = 4

abbrev pub ibv_send_signaled : ℕ
ibv_send_signaled = 2

-- POLL_TIMEOUT, in nanoseconds
abbrev pub poll_timeout : ℕ
poll_timeout = 10 * 10 ^ 9

-- `expect`: a missing value is a panic.
unfoldable pub expect : {A : Type 0} → Option A → IoResult A
expect none = err panicked
expect (some a) = ok a

-- A run that may need more rounds than its fuel: `none` is no outcome of the program.
abbrev pub Run : Type 0 → Type 0 → Type 0
Run S A = S → Option (IoResult A × S)

-- What one round of the loop decides from a poll: an outcome, or to look at the clock.
unfoldable pub polled : ℕ → ℤ × Completion → Option (IoResult (Unit {0}))
polled wr_id (ret, wc) =
    if is_negative ret
    then some (check (neg ret))
    else if eq_int ret (pos 1) && wc.wr_id == wr_id
    then some (if is_zero wc.status then ok tt else err other)
    else none

module _ (lib : Library) where
  -- The loop over `ibv_poll_cq`, until the completion of `wr_id` or the deadline.
  unfoldable pub wait_completion : ℕ → ℕ → ℕ → ℕ → Run (Host lib.World) (Unit {0})
  wait_completion zero cq wr_id deadline h = none
  wait_completion (suc fuel) cq wr_id deadline h =
      let (answer, h₁) = ask lib (poll_cq cq) h in
      elim (polled wr_id answer) [
        | some outcome ↦ some (outcome, h₁)
        | none ↦
            let (time, h₂) = ask lib now h₁ in
            elim (leb deadline time) [
              | true ↦ some (err timed_out, h₂)
              | false ↦ wait_completion fuel cq wr_id deadline h₂
            ]
      ]

  -- The work request of an operation.
  unfoldable pub send_wr : ℕ → ℕ → MemoryRegion → ℕ → ℕ → ℕ → SendWr
  send_wr wr_id opcode mr remote_addr rkey len = record {
    wr_id = wr_id;
    sge = record { addr = mr.addr; length = as_u32 len; lkey = mr.lkey };
    opcode = opcode;
    send_flags = ibv_send_signaled;
    remote_addr = remote_addr;
    rkey = rkey;
  }

  -- The post of the work request; the deadline of the wait that follows.
  unfoldable pub post : ℕ → SendWr → Exec (Host lib.World) ℕ
  post id wr = do
    qp ← call lib (id_qp id)
    ret ← call lib (post_send qp wr)
    lift (check ret)
    start ← call lib now
    pure (start + poll_timeout)

  -- `self.next_wr_id.replace(self.next_wr_id.get() + 1)`
  unfoldable pub bump_wr_id : Connection → Connection
  bump_wr_id conn = record conn { next_wr_id = (conn.next_wr_id + 1) % 2 ^ 64 }

  -- The guards of `one_sided`, before anything is posted.
  unfoldable pub admit : Connection → MemoryRegion → ℕ → IoResult (Unit {0})
  unfolding expect
  admit conn mr len =
      if len == 0
      then err invalid_input
      else if ltb mr.size len
      then err invalid_input
      else elim (expect conn.pd) [
        | ok pd ↦ if mr.pd == pd.pd then ok tt else err invalid_input
        | err e ↦ err e
      ]

  -- The state of an operation: the connection's counter and the host.
  pub record Rdma : Type 0 where
    pub conn : Connection
    pub host : Host lib.World

  unfoldable pub await :
      ℕ → Connection → ℕ → IoResult ℕ × Host lib.World → Option (IoResult (Unit {0}) × Rdma)
  await fuel conn wr_id (err e, h) = some (err e, record { conn = conn; host = h })
  await fuel conn wr_id (ok deadline, h) = elim (wait_completion fuel conn.cq wr_id deadline h) [
    | none ↦ none
    | some (r, h') ↦ some (r, record { conn = conn; host = h' })
  ]

  unfoldable pub one_sided : ℕ → ℕ → MemoryRegion → ℕ → ℕ → ℕ → Run Rdma (Unit {0})
  one_sided fuel opcode mr remote_addr rkey len s = elim (admit s.conn mr len) [
    | err e ↦ some (err e, s)
    | ok _ ↦
        let wr_id = s.conn.next_wr_id in
        await fuel (bump_wr_id s.conn) wr_id
          (post s.conn.id (send_wr wr_id opcode mr remote_addr rkey len) s.host)
  ]

  unfoldable pub read : ℕ → MemoryRegion → ℕ → ℕ → ℕ → Run Rdma (Unit {0})
  read fuel = one_sided fuel ibv_wr_rdma_read

  unfoldable pub write : ℕ → MemoryRegion → ℕ → ℕ → ℕ → Run Rdma (Unit {0})
  write fuel = one_sided fuel ibv_wr_rdma_write

  -- `Connection::protection_domain`
  unfoldable pub protection_domain : Connection → IoResult ProtectionDomain
  protection_domain conn = expect conn.pd

  -- `Connection::register_addr`
  unfoldable pub connection_register_addr : Connection → ℕ → ℕ → Exec (Host lib.World) MemoryRegion
  connection_register_addr conn addr size = do
    pd ← lift (protection_domain conn)
    register_addr lib pd addr size
