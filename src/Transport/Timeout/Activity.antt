-- ===== src/Transport/Timeout/Activity.antt =====
-- The last test of `ht_handle_timeout`: when it takes the connection for dead.
use remote_trans.Base.{
  ℕ, ◌+◌, ◌≤◌, ◌<◌, ◌≡◌, sym, ap, subst, true, false, List, [], pos, minus_one, arith, is_pos,
}
use remote_trans.World.{Timeval, World, sendto, gettimeofday, reply, after}
use remote_trans.Transport.Types.{Packet, Conn, ht_heartbeat_interval}
use remote_trans.Transport.Wire.{seal, wire_bytes}
use remote_trans.Transport.Clock.{time_diff_ms, IsTime, micros, time_diff_ms-backwards}
use remote_trans.Transport.Send.{account_sent, ht_send_packet, send_either, next_sequence}
use remote_trans.Transport.Timeout.{
  Sweep, sweep, retransmit_due, heartbeat_packet, heartbeat, check_activity, ht_handle_timeout,
}

-- A datagram that the kernel takes is stamped with the time of the second call after it.
send_either-udp :
    (c : Conn) (p : Packet) (w : World) (fd : ℕ)
    → c.udp_fd ≡ pos fd
    → is_pos (reply (sendto c.udp_fd (wire_bytes (seal p))) w).ret ≡ true
    → (is_pos (send_either c p false w).value ≡ true)
      × ((send_either c p false w).conn.last_activity ≡ (w.script (w.tick + 1) gettimeofday).time)
unfolding send_either ht_send_packet account_sent after
send_either-udp c p w fd open_fd sent = ground arith

-- The kernel takes every datagram of a descriptor.
abbrev pub DatagramsGo : ℕ → World → Type 0
DatagramsGo fd w = (n : ℕ) (bs : List ℕ) → is_pos (w.script n (sendto (pos fd) bs)).ret ≡ true

heartbeat-stamps :
    (now : Timeval) (s : Sweep) (fd : ℕ)
    → s.conn.udp_fd ≡ pos fd
    → DatagramsGo fd s.world
    → ht_heartbeat_interval < time_diff_ms s.conn.last_heartbeat now
    → (heartbeat now s).conn.last_activity
      ≡ (s.world.script (s.world.tick + 1 + 1) gettimeofday).time
unfolding heartbeat after heartbeat_packet
heartbeat-stamps now s fd open_fd go due = ground (
  arith,
  send_either-udp (next_sequence s.conn) p (after gettimeofday s.world) fd open_fd
      (simp open_fd (go (s.world.tick + 1) (wire_bytes (seal p)))),
)
  where
    p : Packet
    p = heartbeat_packet s.conn s.world

pub check_activity-drops :
    (now : Timeval) (s : Sweep)
    → 30000 < time_diff_ms s.conn.last_activity now
    → ((check_activity now s).value ≡ minus_one)
      × ((check_activity now s).conn.is_connected ≡ false)
unfolding check_activity
check_activity-drops now s h = ground arith

-- With an empty send buffer the walk does nothing.
retransmit_due-empty :
    (now : Timeval) (c : Conn) (w : World)
    → c.send_buffer ≡ []
    → retransmit_due now c w ≡ record { front = []; skipped = []; actions = 0; conn = c; world = w }
unfolding retransmit_due sweep
retransmit_due-empty now c w h = ground (arith, h)

-- The state after a walk over an empty buffer.
abbrev pub idle : Conn → World → Sweep
idle c w = record { front = []; skipped = []; actions = 0; conn = c; world = after gettimeofday w }

pub handle_timeout-empty :
    (c : Conn) (w : World)
    → c.is_connected ≡ true
    → c.send_buffer ≡ []
    → let now = (reply gettimeofday w).time in
      ht_handle_timeout c w ≡ check_activity now (heartbeat now (idle c w))
unfolding ht_handle_timeout
handle_timeout-empty c w open_conn none = simp open_conn (
    ap (λ s. check_activity now (heartbeat now s))
      (retransmit_due-empty now c (after gettimeofday w) none))
  where
    now : Timeval
    now = (reply gettimeofday w).time

-- The time that the call starts with, and the one that it reads after a heartbeat by UDP: before it
-- come the times of the start and of the packet, and the datagram.
abbrev pub start_time : World → Timeval
start_time w = (reply gettimeofday w).time

abbrev pub stamp_time : World → Timeval
stamp_time w = (w.script (w.tick + 1 + 1 + 1) gettimeofday).time

-- The heartbeat that ends the connection. On an open connection with an empty send buffer and an
-- open UDP socket that takes every datagram, when a heartbeat is due and the clock shows at least a
-- millisecond (and less than an hour) more after it was sent than at the start of the call,
-- `ht_handle_timeout` returns -1 and marks the connection as not connected: the new time of activity
-- lies behind the time of the start, and the unsigned difference is huge.
pub timeout_drops_active :
    (c : Conn) (w : World) (fd : ℕ)
    → c.is_connected ≡ true
    → c.send_buffer ≡ []
    → c.udp_fd ≡ pos fd
    → DatagramsGo fd w
    → ht_heartbeat_interval < time_diff_ms c.last_heartbeat (start_time w)
    → IsTime (start_time w)
    → IsTime (stamp_time w)
    → micros (start_time w) + 1000 ≤ micros (stamp_time w)
    → micros (stamp_time w) < micros (start_time w) + 3600000000
    → ((ht_handle_timeout c w).value ≡ minus_one)
      × ((ht_handle_timeout c w).conn.is_connected ≡ false)
unfolding after
timeout_drops_active c w fd open_conn none open_fd go due ok ok' later soon =
    subst (λ t. (t.value ≡ minus_one) × (t.conn.is_connected ≡ false))
      (sym (handle_timeout-empty c w open_conn none))
      (check_activity-drops now (heartbeat now (idle c w)) (omega (arith, backwards)))
  where
    now : Timeval
    now = (reply gettimeofday w).time

    stamp :
        (heartbeat now (idle c w)).conn.last_activity
        ≡ (w.script (w.tick + 1 + 1 + 1) gettimeofday).time
    stamp = heartbeat-stamps now (idle c w) fd open_fd go due

    backwards : 4291367295 ≤ time_diff_ms (heartbeat now (idle c w)).conn.last_activity now
    backwards = rw stamp (time_diff_ms-backwards _ now ok' ok later soon)
