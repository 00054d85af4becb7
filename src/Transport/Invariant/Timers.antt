-- ===== src/Transport/Invariant/Timers.antt =====
-- The invariant under `ht_handle_timeout`.
use remote_trans.Base.{
  ℕ, ◌≡◌, refl, sym, ap, ◌∙◌, subst, true, false, List, [], ◌∷◌, ◌++◌, ℤ, pos_part, arith, All,
  All-append, Bool-cases, inl, inr, is_pos,
}
use remote_trans.World.{Timeval, World, after, reply, gettimeofday}
use remote_trans.Transport.Types.{SendEntry, Conn, Step}
use remote_trans.Transport.Wire.Seal.{seal-IsPacket}
use remote_trans.Transport.Wire.{seal}
use remote_trans.Transport.Send.{send_either, next_sequence}
use remote_trans.Transport.Send.Frame.{Accounts, send_either-Keeps}
use remote_trans.Transport.Timeout.{
  Sweep, is_due, may_retransmit, retransmitted, count_retransmitted, retransmit, give_up, pass,
  sweep_entry, sweep, retransmit_due, heartbeat_packet, heartbeat, check_activity,
  ht_handle_timeout,
}
use remote_trans.Transport.Invariant.{
  Outgoing, IsConn, next_sequence-IsConn, Accounts-IsConn, with_buffer-IsConn,
}

-- The walk's state, `m` being the connection's limit.
record IsSweep (m : ℤ) (s : Sweep) : Type 0 where
  conn : IsConn s.conn
  limit : s.conn.max_retransmit ≡ m
  front : All (Outgoing (pos_part m)) s.front
  skipped : All (Outgoing (pos_part m)) s.skipped

-- Statistics and times are no part of the invariant.
with_stats-IsConn : (c d : Conn) → Accounts c d → IsConn c → IsConn (count_retransmitted d)
with_stats-IsConn c d h v = record {
  send_sequence = w.send_sequence;
  recv_sequence = w.recv_sequence;
  ack_sequence = w.ack_sequence;
  recv_window = w.recv_window;
  outgoing = w.outgoing;
}
  where
    w : IsConn d
    w = Accounts-IsConn c d h v

retransmitted-Outgoing :
    (now : Timeval) (c : Conn) (e : SendEntry)
    → may_retransmit c e ≡ true
    → Outgoing (pos_part c.max_retransmit) e
    → Outgoing (pos_part c.max_retransmit) (retransmitted now e)
unfolding may_retransmit seal
retransmitted-Outgoing now c e h v = record {
  packet = seal-IsPacket e.packet v.packet;
  magic = v.magic;
  small = v.small;
  tries = ground (arith, h);
}

retransmit-IsSweep :
    (m : ℤ) (now : Timeval) (e : SendEntry) (s : Sweep)
    → may_retransmit s.conn e ≡ true
    → Outgoing (pos_part m) e
    → IsSweep m s
    → IsSweep m (retransmit now e s)
unfolding retransmit
retransmit-IsSweep m now e s h o v = elim (Bool-cases (is_pos r.value)) [
  | inl e1 ↦ rw e1 (kept _ (with_stats-IsConn s.conn r.conn k v.conn) same)
  | inr e1 ↦ rw e1 (kept _ (Accounts-IsConn s.conn r.conn k v.conn) same)
]
  where
    r : Step
    r = send_either s.conn e.packet true s.world

    k : Accounts s.conn r.conn
    k = (send_either-Keeps s.conn e.packet true s.world).conn

    same : r.conn.max_retransmit ≡ m
    same = ap (λ d. d.max_retransmit) k ∙ v.limit

    again : Outgoing (pos_part m) (retransmitted now e)
    again =
        subst (λ n. Outgoing (pos_part n) (retransmitted now e)) v.limit
          (retransmitted-Outgoing now s.conn e h
            (subst (λ n. Outgoing (pos_part n) e) (sym v.limit) o))

    kept :
        {actions : ℕ} (d : Conn)
        → IsConn d
        → d.max_retransmit ≡ m
        → IsSweep m (record {
          front = s.front;
          skipped = s.skipped ++ retransmitted now e ∷ [];
          actions = actions;
          conn = d;
          world = r.world;
        })
    kept d w l = record {
      conn = w;
      limit = l;
      front = v.front;
      skipped = All-append (Outgoing (pos_part m)) s.skipped _ v.skipped (again, tt);
    }

give_up-IsSweep : (m : ℤ) (s : Sweep) → IsSweep m s → IsSweep m (give_up s)
unfolding give_up
give_up-IsSweep m s v = record {
  conn = record {
    send_sequence = v.conn.send_sequence;
    recv_sequence = v.conn.recv_sequence;
    ack_sequence = v.conn.ack_sequence;
    recv_window = v.conn.recv_window;
    outgoing = v.conn.outgoing;
  };
  limit = v.limit;
  front = v.front;
  skipped = tt;
}

pass-IsSweep :
    (m : ℤ) (e : SendEntry) (s : Sweep)
    → Outgoing (pos_part m) e
    → IsSweep m s
    → IsSweep m (pass e s)
unfolding pass
pass-IsSweep m e s o v = record {
  conn = v.conn;
  limit = v.limit;
  front =
      All-append (Outgoing (pos_part m)) s.front _ v.front
        (All-append (Outgoing (pos_part m)) s.skipped _ v.skipped (o, tt));
  skipped = tt;
}

sweep_entry-IsSweep :
    (m : ℤ) (now : Timeval) (e : SendEntry) (s : Sweep)
    → Outgoing (pos_part m) e
    → IsSweep m s
    → IsSweep m (sweep_entry now e s)
unfolding sweep_entry
sweep_entry-IsSweep m now e s o v = elim (Bool-cases (is_due now s.conn e)) [
  | inr d ↦ rw d (pass-IsSweep m e s o v)
  | inl d ↦ elim (Bool-cases (may_retransmit s.conn e)) [
    | inl h ↦ rw (d, h) (retransmit-IsSweep m now e s h o v)
    | inr h ↦ rw (d, h) (give_up-IsSweep m s v)
  ]
]

sweep-IsSweep :
    (m : ℤ) (now : Timeval) (es : List SendEntry) (s : Sweep)
    → All (Outgoing (pos_part m)) es
    → IsSweep m s
    → IsSweep m (sweep now es s)
unfolding sweep
sweep-IsSweep m now [] s o v = v
sweep-IsSweep m now (e ∷ es) s o v =
    sweep-IsSweep m now es (sweep_entry now e s) o.1 (sweep_entry-IsSweep m now e s o.0 v)

retransmit_due-IsConn :
    (now : Timeval) (c : Conn) (w : World) → IsConn c → IsConn (retransmit_due now c w).conn
unfolding retransmit_due
retransmit_due-IsConn now c w v =
    with_buffer-IsConn end.conn (end.front ++ end.skipped) walked.conn (
      subst (λ m. All (Outgoing (pos_part m)) (end.front ++ end.skipped)) (sym walked.limit)
        (All-append (Outgoing (pos_part c.max_retransmit)) end.front end.skipped walked.front
          walked.skipped))
  where
    start : Sweep
    start = record { front = []; skipped = []; actions = 0; conn = c; world = w }

    end : Sweep
    end = sweep now c.send_buffer start

    walked : IsSweep c.max_retransmit end
    walked =
        sweep-IsSweep c.max_retransmit now c.send_buffer start v.outgoing
          (record { conn = v; limit = refl; front = tt; skipped = tt })

heartbeat-IsConn : (now : Timeval) (s : Sweep) → IsConn s.conn → IsConn (heartbeat now s).conn
unfolding heartbeat
heartbeat-IsConn now s v = ground (
  arith,
  Accounts-IsConn next _
      (send_either-Keeps next (heartbeat_packet s.conn s.world) false
        (after gettimeofday s.world)).conn
      (next_sequence-IsConn s.conn v),
)
  where
    next : Conn
    next = next_sequence s.conn

-- `ht_handle_timeout` keeps the connection well formed: what it has sent again too often is gone.
pub handle_timeout-IsConn : (c : Conn) (w : World) → IsConn c → IsConn (ht_handle_timeout c w).conn
unfolding ht_handle_timeout check_activity
handle_timeout-IsConn c w v = ground (
  arith,
  heartbeat-IsConn (reply gettimeofday w).time
      (retransmit_due (reply gettimeofday w).time c (after gettimeofday w))
      (retransmit_due-IsConn (reply gettimeofday w).time c (after gettimeofday w) v),
)
