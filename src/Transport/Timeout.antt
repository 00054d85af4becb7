-- ===== src/Transport/Timeout.antt =====
-- hybrid_transport.c: `ht_handle_timeout`. The walk over the linked send buffer keeps a `prev`
-- pointer that it does not move over a retransmitted entry. So its state is the list in two parts:
-- `front`, the entries up to and with `*prev`, and `skipped`, those between `*prev` and the current
-- entry. Unlinking an entry writes `prev->next` (or the head), and drops `skipped` from the list.
pub mod Sweeping
pub mod Resending
pub mod Lost
pub mod Activity
pub mod Idle
use remote_trans.Base.{
  ℕ, ◌+◌, ◌%◌, ◌^◌, Bool, true, false, List, [], ◌∷◌, ◌++◌, pos, minus_one, is_pos, ltb, ltb_ℤ,
  to_u32, if◌then◌else◌,
}
use remote_trans.World.{Timeval, World, reply, after, gettimeofday}
use remote_trans.Transport.Types.{
  Packet, SendEntry, Conn, Step, type_heartbeat, ht_heartbeat_interval,
}
use remote_trans.Transport.Wire.{blank_packet, seal}
use remote_trans.Transport.Clock.{get_timestamp_ms, time_diff_ms}
use remote_trans.Transport.Send.{send_either, next_sequence}

pub record Sweep : Type 0 where
  pub front : List SendEntry
  pub skipped : List SendEntry
  pub actions : ℕ
  pub conn : Conn
  pub world : World

-- `elapsed > conn->retransmit_timeout`, which compares as unsigned numbers.
unfoldable pub is_due : Timeval → Conn → SendEntry → Bool
is_due now c e = ltb (to_u32 c.retransmit_timeout) (time_diff_ms e.send_time now)

unfoldable pub may_retransmit : Conn → SendEntry → Bool
may_retransmit c e = ltb_ℤ (pos e.retransmit_count) c.max_retransmit

abbrev pub retransmitted : Timeval → SendEntry → SendEntry
retransmitted now e = record {
  packet = seal e.packet;
  send_time = now;
  retransmit_count = e.retransmit_count + 1;
}

abbrev pub count_retransmitted : Conn → Conn
count_retransmitted c = record c {
  stats = record c.stats { packets_retransmitted = (c.stats.packets_retransmitted + 1) % 2 ^ 64 };
}

-- TCP first, then UDP. The entry stays linked, and `prev` stays where it is.
unfoldable pub retransmit : Timeval → SendEntry → Sweep → Sweep
retransmit now e s =
    let r = send_either s.conn e.packet true s.world in
    record {
      front = s.front;
      skipped = s.skipped ++ retransmitted now e ∷ [];
      actions = if is_pos r.value then s.actions + 1 else s.actions;
      conn = if is_pos r.value then count_retransmitted r.conn else r.conn;
      world = r.world;
    }

unfoldable pub give_up : Sweep → Sweep
give_up s = record s {
  skipped = [];
  actions = s.actions + 1;
  conn = record s.conn {
    stats = record s.conn.stats { packets_lost = (s.conn.stats.packets_lost + 1) % 2 ^ 64 };
  };
}

-- `prev = entry`
unfoldable pub pass : SendEntry → Sweep → Sweep
pass e s = record s { front = s.front ++ (s.skipped ++ e ∷ []); skipped = [] }

unfoldable pub sweep_entry : Timeval → SendEntry → Sweep → Sweep
sweep_entry now e s =
    if is_due now s.conn e
    then if may_retransmit s.conn e then retransmit now e s else give_up s
    else pass e s

unfoldable pub sweep : Timeval → List SendEntry → Sweep → Sweep
sweep now [] s = s
sweep now (e ∷ es) s = sweep now es (sweep_entry now e s)

unfoldable pub retransmit_due : Timeval → Conn → World → Sweep
retransmit_due now c w =
    let s =
      sweep now c.send_buffer
        (record { front = []; skipped = []; actions = 0; conn = c; world = w }) in
    record s { conn = record s.conn { send_buffer = s.front ++ s.skipped } }

unfoldable pub heartbeat_packet : Conn → World → Packet
heartbeat_packet c w =
    blank_packet type_heartbeat c.send_sequence (get_timestamp_ms (reply gettimeofday w).time)

-- UDP first, then TCP.
unfoldable pub heartbeat : Timeval → Sweep → Sweep
heartbeat now s =
    let p = heartbeat_packet s.conn s.world in
    let r = send_either (next_sequence s.conn) p false (after gettimeofday s.world) in
    if ltb ht_heartbeat_interval (time_diff_ms s.conn.last_heartbeat now)
    then record s {
      actions = if is_pos r.value then s.actions + 1 else s.actions;
      conn = if is_pos r.value then record r.conn { last_heartbeat = now } else r.conn;
      world = r.world;
    }
    else s

-- The last test: 30 seconds without activity, measured against the time at the start.
unfoldable pub check_activity : Timeval → Sweep → Step
check_activity now s =
    if ltb 30000 (time_diff_ms s.conn.last_activity now)
    then record {
      value = minus_one;
      conn = record s.conn { is_connected = false };
      world = s.world;
    }
    else record { value = pos s.actions; conn = s.conn; world = s.world }

unfoldable pub ht_handle_timeout : Conn → World → Step
ht_handle_timeout c w =
    let now = (reply gettimeofday w).time in
    let done = check_activity now (heartbeat now (retransmit_due now c (after gettimeofday w))) in
    if c.is_connected then done else record { value = minus_one; conn = c; world = w }
