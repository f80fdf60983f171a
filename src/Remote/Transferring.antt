-- ===== src/Remote/Transferring.antt =====
-- A transfer through a group's connection: what a success has done, and that it ends.
use rdmalib.Base.{
  ℕ, ◌≡◌, inl, inr, refl, sym, ap, ◌∙◌, Option-cases, Option, some, List, [], ◌∷◌, ◌++◌,
  append_assoc, All, set,
}
use rdmalib.Base.Io.{IoResult, ErrorKind, ok, err, IoResult-cases}
use rdmalib.Rdma.Calls.{
  Library, Host, Call, call, ask, ibv_reg_mr, ibv_dereg_mr, post_send, id_qp, now,
}
use rdmalib.Rdma.Domain.{MemoryRegion, ProtectionDomain, access, drop_region}
use rdmalib.Rdma.OneSided.{Connection, Rdma, one_sided, send_wr, connection_register_addr}
use rdmalib.Rdma.Registering.{connection_register_addr-ok}
use rdmalib.Rdma.Waiting.{IsWait, Completed}
use rdmalib.Rdma.Posting.{one_sided-Succeeded}
use rdmalib.Remote.Region.{Slots, RemoteMemoryRegion, Transfer, Reader, get, operate, transfer}

-- A transfer that succeeded: through the group's connection it registered the local memory, posted
-- one request for the remote memory, waited until the device completed it with success, and
-- deregistered the memory again.
pub record Transferred (lib : Library) (opcode : ℕ) (region : RemoteMemoryRegion) (t : Transfer)
    (s s' : Reader lib) : Type 0 where
  pub conn : Connection
  pub pd : ProtectionDomain
  pub mr : MemoryRegion
  pub qp : ℕ
  pub waits : List Call
  pub connected : get s.slots region.connection ≡ ok conn
  pub in_domain : conn.pd ≡ some pd
  pub local_addr : mr.addr ≡ t.local_addr
  pub local_size : mr.size ≡ t.len
  pub log :
      s'.host.log
      ≡ s.host.log
        ++ (ibv_reg_mr pd.pd t.local_addr t.len access
            ∷ id_qp conn.id
            ∷ post_send qp (send_wr lib conn.next_wr_id opcode mr t.remote_addr region.rkey t.len)
            ∷ now
            ∷ (waits ++ (ibv_dereg_mr mr.mr ∷ [])))
  pub only_waits : All (IsWait conn.cq) waits
  pub finished : Host lib.World
  pub completed : Completed lib conn.cq conn.next_wr_id finished
  pub dropped : s'.host ≡ (drop_region lib mr finished).1

module _ (lib : Library) (opcode : ℕ) (region : RemoteMemoryRegion) (t : Transfer) where
  drop_region_log :
      (mr : MemoryRegion) (h : Host lib.World)
      → (drop_region lib mr h).1.log ≡ h.log ++ (ibv_dereg_mr mr.mr ∷ [])
  unfolding drop_region call ask
  drop_region_log mr h = refl

  -- The log of a registration, an operation and a drop, put together.
  joined_log :
      (l₀ l₁ l₂ l₃ waits : List Call) (a b c d e : Call)
      → l₁ ≡ l₀ ++ (a ∷ [])
      → l₂ ≡ l₁ ++ (b ∷ c ∷ d ∷ waits)
      → l₃ ≡ l₂ ++ (e ∷ [])
      → l₃ ≡ l₀ ++ (a ∷ b ∷ c ∷ d ∷ (waits ++ (e ∷ [])))
  joined_log l₀ l₁ l₂ l₃ waits a b c d e p q r = rw (r, q, p) (simp append_assoc)

  operate-ok :
      (fuel : ℕ) (conn : Connection) (p : IoResult MemoryRegion × Host lib.World) (slots : Slots)
      {s' : Reader lib}
      → operate lib fuel opcode t region.rkey region.connection conn p slots ≡ some (ok tt, s')
      → (mr : MemoryRegion) × (p.0 ≡ ok mr)
        × (r : Rdma lib) × (one_sided lib fuel opcode mr t.remote_addr region.rkey t.len
              (record { conn = conn; host = p.1 })
            ≡ some (ok tt, r))
        × (s'.host ≡ (drop_region lib mr r.host).1)
  unfolding operate
  operate-ok fuel conn (err x, h) slots e = cc
  operate-ok fuel conn (ok mr, h) slots {s'} e =
      elim (Option-cases (
        one_sided lib fuel opcode mr t.remote_addr region.rkey t.len
          (record { conn = conn; host = h }))) [
            | inl n ↦ cc (rw (n, operate) at e)
            | inr ((r, k), n) ↦
                let q : ◌≡◌ {A = Option (IoResult (Unit {0}) × Reader lib)}
                    (some (
                      r,
                      record {
                        slots = set slots region.connection (some k.conn);
                        host = (drop_region lib mr k.host).1;
                      },
                    ))
                    (some (ok tt, s')) =
                  rw (n, operate) at e in
                let outcome : r ≡ ok tt = cc in
                let state : (record {
                  slots = set slots region.connection (some k.conn);
                  host = (drop_region lib mr k.host).1;
                })
                    ≡ s' =
                  cc in
                (
                  mr,
                  refl,
                  k,
                  n ∙ ap (λ o. some (o, k)) outcome,
                  sym (ap (λ (w : Reader lib). w.host) state),
                )
          ]

  transfer_connected :
      (fuel : ℕ) (s : Reader lib) {conn : Connection}
      → get s.slots region.connection ≡ ok conn
      → transfer lib fuel opcode region (ok t) s
        ≡ operate lib fuel opcode t region.rkey region.connection conn
            (connection_register_addr lib conn t.local_addr t.len s.host)
            s.slots
  unfolding transfer
  transfer_connected fuel s e = rw (e, transfer)

  transfer_unconnected :
      (fuel : ℕ) (s : Reader lib) {x : ErrorKind}
      → get s.slots region.connection ≡ err x
      → transfer lib fuel opcode region (ok t) s ≡ some (err x, s)
  unfolding transfer
  transfer_unconnected fuel s e = rw (e, transfer)

  operated :
      (fuel : ℕ) (s : Reader lib) {s' : Reader lib} (conn : Connection)
      → get s.slots region.connection ≡ ok conn
      → (p : IoResult MemoryRegion × Host lib.World)
      → connection_register_addr lib conn t.local_addr t.len s.host ≡ p
      → operate lib fuel opcode t region.rkey region.connection conn p s.slots ≡ some (ok tt, s')
      → Transferred lib opcode region t s s'
  operated fuel s {s'} conn has p same e =
      let (mr, r, k, done, dropped) = operate-ok fuel conn p s.slots e in
      let (pd, domain, reg) =
        connection_register_addr-ok lib conn t.local_addr t.len s.host {mr = mr} {h' = p.1}
          (same ∙ ap (λ q. (q, p.1)) r) in
      let one =
        one_sided-Succeeded lib opcode mr t.remote_addr region.rkey t.len fuel
          (record { conn = conn; host = p.1 }) done in
      record {
        conn = conn;
        pd = pd;
        mr = mr;
        qp = one.qp;
        waits = one.waits;
        connected = has;
        in_domain = domain;
        local_addr = reg.addr;
        local_size = reg.size;
        log =
            joined_log s.host.log p.1.log k.host.log s'.host.log one.waits _ _ _ _ _ reg.log one.log
              (ap (λ (h : Host lib.World). h.log) dropped ∙ drop_region_log mr k.host);
        only_waits = one.only_waits;
        finished = k.host;
        completed = one.completed;
        dropped = dropped;
      }

  -- A transfer that reports success has done all that it should, in order, and nothing else.
  pub transfer_succeeded :
      (fuel : ℕ) (s : Reader lib) {s' : Reader lib}
      → transfer lib fuel opcode region (ok t) s ≡ some (ok tt, s')
      → Transferred lib opcode region t s s'
  transfer_succeeded fuel s e = elim (IoResult-cases (get s.slots region.connection)) [
    | inr (x, n) ↦ cc (sym (transfer_unconnected fuel s n) ∙ e)
    | inl (conn, has) ↦ operated fuel s conn has _ refl (sym (transfer_connected fuel s has) ∙ e)
  ]
