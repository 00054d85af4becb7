-- ===== src/Transport/Timeout/Idle.antt =====
-- A connection on which nothing can be sent, under `ht_handle_timeout`.
use remote_trans.Base.{
  ℕ, ◌+◌, ◌≤◌, ◌<◌, ◌≡◌, sym, ap, subst, ◌∙◌, Bool, true, false, not, List, [], ℤ, pos, minus_one,
  arith, is_pos,
}
use remote_trans.World.{Timeval, World, send, sendto, gettimeofday, after, script-after}
use remote_trans.Transport.Types.{Packet, Conn}
use remote_trans.Transport.Wire.{seal, wire_bytes}
use remote_trans.Transport.Clock.{time_diff_ms, IsTime, micros, time_diff_ms-near}
use remote_trans.Transport.Send.{account_sent, ht_send_packet, send_either, next_sequence}
use remote_trans.Transport.Send.Frame.{send_packet-Keeps}
use remote_trans.Transport.Timeout.{
  Sweep, heartbeat_packet, heartbeat, check_activity, ht_handle_timeout,
}
use remote_trans.Transport.Timeout.Activity.{
  idle, start_time, handle_timeout-empty, check_activity-drops,
}

-- No packet leaves.
pub record NothingGoes (w : World) : Type 0 where
  pub by_tcp : (n : ℕ) (fd : ℤ) (bs : List ℕ) → is_pos (w.script n (send fd bs)).ret ≡ false
  pub by_udp : (n : ℕ) (fd : ℤ) (bs : List ℕ) → is_pos (w.script n (sendto fd bs)).ret ≡ false

send_packet-unsent :
    (c : Conn) (p : Packet) (tcp : Bool) (w : World)
    → NothingGoes w
    → (is_pos (ht_send_packet c p tcp w).value ≡ false) × ((ht_send_packet c p tcp w).conn ≡ c)
unfolding ht_send_packet account_sent
send_packet-unsent c p tcp w v = ground (
  arith,
  v.by_tcp w.tick c.tcp_fd (wire_bytes (seal p)),
  v.by_udp w.tick c.udp_fd (wire_bytes (seal p)),
)

NothingGoes-script : (w u : World) → u.script ≡ w.script → NothingGoes w → NothingGoes u
NothingGoes-script w u e v = record {
  by_tcp = λ n fd bs. ap (λ f. is_pos (f n (send fd bs)).ret) e ∙ v.by_tcp n fd bs;
  by_udp = λ n fd bs. ap (λ f. is_pos (f n (sendto fd bs)).ret) e ∙ v.by_udp n fd bs;
}

send_either-unsent :
    (c : Conn) (p : Packet) (tcp : Bool) (w : World)
    → NothingGoes w
    → (is_pos (send_either c p tcp w).value ≡ false) × ((send_either c p tcp w).conn ≡ c)
unfolding send_either
send_either-unsent c p tcp w v = ground (
  arith,
  send_packet-unsent c p tcp w v,
  send_packet-unsent (ht_send_packet c p tcp w).conn (seal p) (not tcp)
      (ht_send_packet c p tcp w).world
      (NothingGoes-script w _ (send_packet-Keeps c p tcp w).script v),
)

heartbeat-unsent :
    (now : Timeval) (s : Sweep)
    → NothingGoes s.world
    → ((heartbeat now s).conn.last_activity ≡ s.conn.last_activity)
      × ((heartbeat now s).conn.is_connected ≡ s.conn.is_connected)
      × ((heartbeat now s).actions ≡ s.actions)
unfolding heartbeat
heartbeat-unsent now s v = ground (
  arith,
  send_either-unsent (next_sequence s.conn) (heartbeat_packet s.conn s.world) false
      (after gettimeofday s.world)
      (NothingGoes-script s.world _ (script-after gettimeofday s.world) v),
)

heartbeat-idle :
    (c : Conn) (w : World)
    → NothingGoes w
    → let s = heartbeat (start_time w) (idle c w) in
      (s.conn.last_activity ≡ c.last_activity)
      × (s.conn.is_connected ≡ c.is_connected)
      × (s.actions ≡ 0)
heartbeat-idle c w v =
    heartbeat-unsent (start_time w) (idle c w)
      (NothingGoes-script w _ (script-after gettimeofday w) v)

check_activity-keeps :
    (now : Timeval) (s : Sweep)
    → time_diff_ms s.conn.last_activity now ≤ 30000
    → ((check_activity now s).value ≡ pos s.actions)
      × ((check_activity now s).conn.is_connected ≡ s.conn.is_connected)
unfolding check_activity
check_activity-keeps now s h = ground arith

-- On an open connection with an empty send buffer, while nothing can be sent and the clock does not
-- run backwards, the call ends the connection after 30.001 seconds without activity, up to an interval
-- of 4294967295 ms, which is where the 32-bit difference of the times begins again.
pub timeout_drops_idle :
    (c : Conn) (w : World)
    → c.is_connected ≡ true
    → c.send_buffer ≡ []
    → NothingGoes w
    → IsTime c.last_activity
    → IsTime (start_time w)
    → micros c.last_activity + 30001000 ≤ micros (start_time w)
    → micros (start_time w) < micros c.last_activity + 4294967295000
    → ((ht_handle_timeout c w).value ≡ minus_one)
      × ((ht_handle_timeout c w).conn.is_connected ≡ false)
timeout_drops_idle c w open_conn none v ok ok' long short =
    subst (λ t. (t.value ≡ minus_one) × (t.conn.is_connected ≡ false))
      (sym (handle_timeout-empty c w open_conn none))
      (check_activity-drops (start_time w) (heartbeat (start_time w) (idle c w)) (
        rw ((heartbeat-idle c w v).0) (
          omega
            (arith, time_diff_ms-near c.last_activity (start_time w) ok ok' (omega arith) short))))

-- On such a connection (open, with an empty send buffer, nothing can be sent, the clock does not run
-- backwards), with 30 seconds or less since the last activity, the call returns 0 and keeps it.
pub timeout_keeps_idle :
    (c : Conn) (w : World)
    → c.is_connected ≡ true
    → c.send_buffer ≡ []
    → NothingGoes w
    → IsTime c.last_activity
    → IsTime (start_time w)
    → micros c.last_activity ≤ micros (start_time w)
    → micros (start_time w) ≤ micros c.last_activity + 30000000
    → ((ht_handle_timeout c w).value ≡ pos 0) × ((ht_handle_timeout c w).conn.is_connected ≡ true)
timeout_keeps_idle c w open_conn none v ok ok' forward short =
    subst (λ t. (t.value ≡ pos 0) × (t.conn.is_connected ≡ true))
      (sym (handle_timeout-empty c w open_conn none))
      (ground (
        arith,
        heartbeat-idle c w v,
        time_diff_ms-near c.last_activity (start_time w) ok ok' forward (omega arith),
        check_activity-keeps (start_time w) (heartbeat (start_time w) (idle c w)),
      ))
