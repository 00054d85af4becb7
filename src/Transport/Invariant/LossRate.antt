-- ===== src/Transport/Invariant/LossRate.antt =====
-- The loss rate that `ht_should_use_tcp` reads, over the life of a connection.
use remote_trans.Base.{
  ℕ, zero, suc, ◌+◌, ◌≡◌, refl, ◌∙◌, Bool, true, false, not, some, List, [], ◌∷◌, ℤ, arith, is_pos,
  length, take, drop, Bool-cases, inl, inr, if◌then◌else◌,
}
use remote_trans.Floats.{Floats, f0}
use remote_trans.World.{World, Timeval, after, gettimeofday, reply}
use remote_trans.Transport.Types.{
  Mode, udp_only, tcp_only, hybrid, auto, Packet, SendEntry, Conn, Step, ht_max_payload_size,
}
use remote_trans.Transport.Wire.{decode, seal}
use remote_trans.Transport.Statistics.{
  ht_update_rtt, ht_reset_stats, sample_min, sample_max, sample_avg,
}
use remote_trans.Transport.Send.{
  account_sent, ht_send_packet, send_either, next_sequence, transmit, remember, send_chunk,
  send_loop, ht_send_data, chunk_packet,
}
use remote_trans.Transport.Recv.{Received, validate, ht_recv_packet, ht_recv_data}
use remote_trans.Transport.Events.{
  Session, store, on_data, on_ack, on_heartbeat, on_control, dispatch, events_loop,
  ht_process_events, ack_packet,
}
use remote_trans.Transport.Timeout.{
  Sweep, retransmit, give_up, pass, sweep_entry, sweep, retransmit_due, heartbeat, heartbeat_packet,
  check_activity, ht_handle_timeout,
}
use remote_trans.Transport.Socket.{
  ht_create_connection, connect_tcp, connect_udp, ht_connect, notify, ht_disconnect,
}
use remote_trans.Transport.Invariant.Lifetime.{
  Reachable, created, connects, disconnects, sends, receives, processes, waits, resets,
}

abbrev pub loss : Conn → ℕ
loss c = c.stats.packet_loss_rate

loss-send_packet :
    (c : Conn) (p : Packet) (tcp : Bool) (w : World) → loss (ht_send_packet c p tcp w).conn ≡ loss c
unfolding ht_send_packet account_sent
loss-send_packet c p tcp w = ground arith

loss-send_either :
    (c : Conn) (p : Packet) (tcp : Bool) (w : World) → loss (send_either c p tcp w).conn ≡ loss c
unfolding send_either
loss-send_either c p tcp w = ground (
  arith,
  loss-send_packet c p tcp w,
  loss-send_packet (ht_send_packet c p tcp w).conn (seal p) (not tcp)
      (ht_send_packet c p tcp w).world,
)

loss-transmit :
    (fl : Floats) (c : Conn) (chunk : List ℕ) (w : World)
    → loss (transmit fl c chunk w).conn ≡ loss c
unfolding transmit
loss-transmit fl c chunk w = loss-send_either (next_sequence c) _ _ _

loss-remember : (c : Conn) (p : Packet) (w : World) → loss (remember c p w).conn ≡ loss c
unfolding remember
loss-remember c p w = ground arith

loss-send_chunk :
    (fl : Floats) (c : Conn) (chunk : List ℕ) (w : World)
    → loss (send_chunk fl c chunk w).conn ≡ loss c
unfolding send_chunk
loss-send_chunk fl c chunk w = ground (
  arith,
  loss-transmit fl c chunk w,
  loss-remember (transmit fl c chunk w).conn (seal (chunk_packet c chunk w))
      (transmit fl c chunk w).world,
)

loss-send_loop :
    (fl : Floats) (fuel n : ℕ) (rest : List ℕ) (c : Conn) (w : World)
    → loss (send_loop fl fuel n rest c w).conn ≡ loss c
unfolding send_loop
loss-send_loop fl zero n rest c w = refl
loss-send_loop fl (suc fuel) n rest c w =
    let s = send_chunk fl c (take ht_max_payload_size rest) w in
    ground (
      arith,
      loss-send_chunk fl c (take ht_max_payload_size rest) w,
      loss-send_loop fl fuel (n + length (take ht_max_payload_size rest))
          (drop ht_max_payload_size rest) s.conn s.world,
    )

loss-send_data :
    (fl : Floats) (c : Conn) (bytes : List ℕ) (w : World)
    → loss (ht_send_data fl c bytes w).conn ≡ loss c
unfolding ht_send_data
loss-send_data fl c bytes w = ground (arith, loss-send_loop fl (length bytes) 0 bytes c w)

loss-recv_packet :
    (c : Conn) (buf : List ℕ) (w : World) → loss (ht_recv_packet c buf w).conn ≡ loss c
unfolding ht_recv_packet validate
loss-recv_packet c buf w = ground arith

loss-recv_data : (c : Conn) (size : ℕ) → loss (ht_recv_data c size).2 ≡ loss c
unfolding ht_recv_data
loss-recv_data c size = ground arith

loss-on_data : (p : Packet) (tcp : Bool) (s : Session) → loss (on_data p tcp s).conn ≡ loss s.conn
unfolding on_data store
loss-on_data p tcp s = ground (
  arith,
  loss-send_packet (next_sequence s.conn) (ack_packet s.conn p s.world) tcp
      (after gettimeofday s.world),
)

loss-on_ack : (p : Packet) (s : Session) → loss (on_ack p s).conn ≡ loss s.conn
unfolding on_ack ht_update_rtt sample_min sample_max sample_avg
loss-on_ack p s = ground arith

loss-dispatch : (p : Packet) (tcp : Bool) (s : Session) → loss (dispatch p tcp s).conn ≡ loss s.conn
unfolding dispatch on_heartbeat on_control
loss-dispatch p tcp s = ground (arith, loss-on_data p tcp s, loss-on_ack p s)

loss-sweep_entry :
    (now : Timeval) (e : SendEntry) (s : Sweep) → loss (sweep_entry now e s).conn ≡ loss s.conn
unfolding sweep_entry retransmit give_up pass
loss-sweep_entry now e s = ground (arith, loss-send_either s.conn e.packet true s.world)

loss-sweep :
    (now : Timeval) (es : List SendEntry) (s : Sweep) → loss (sweep now es s).conn ≡ loss s.conn
unfolding sweep
loss-sweep now [] s = refl
loss-sweep now (e ∷ es) s = loss-sweep now es (sweep_entry now e s) ∙ loss-sweep_entry now e s

loss-heartbeat : (now : Timeval) (s : Sweep) → loss (heartbeat now s).conn ≡ loss s.conn
unfolding heartbeat
loss-heartbeat now s = ground (
  arith,
  loss-send_either (next_sequence s.conn) (heartbeat_packet s.conn s.world) false
      (after gettimeofday s.world),
)

loss-notify :
    (fd : ℤ) (c : Conn) (p : Packet) (tcp : Bool) (w : World)
    → loss (notify fd c p tcp w).conn ≡ loss c
unfolding notify
loss-notify fd c p tcp w = ground (arith, loss-send_packet c p tcp w)

loss-handle_timeout : (c : Conn) (w : World) → loss (ht_handle_timeout c w).conn ≡ loss c
unfolding ht_handle_timeout check_activity retransmit_due
loss-handle_timeout c w = ground (
  arith,
  loss-heartbeat (reply gettimeofday w).time
      (retransmit_due (reply gettimeofday w).time c (after gettimeofday w)),
  loss-sweep (reply gettimeofday w).time c.send_buffer
      (record { front = []; skipped = []; actions = 0; conn = c; world = after gettimeofday w }),
)

loss-events_loop :
    (fuel processed : ℕ) (buf : List ℕ) (s : Session) {r : Step}
    → events_loop fuel processed buf s ≡ some r
    → loss r.conn ≡ loss s.conn
unfolding events_loop
loss-events_loop zero processed buf s h = cc
loss-events_loop (suc fuel) processed buf s {r} h = elim (Bool-cases (is_pos got.value)) [
  | inl e ↦
      loss-events_loop fuel (processed + 1) got.buf next {r = r} (ground (arith, h, e))
      ∙ loss-dispatch (decode got.buf) got.from_tcp (record { conn = got.conn; world = got.world })
      ∙ loss-recv_packet s.conn buf s.world
  | inr e ↦ over e ∙ loss-recv_packet s.conn buf s.world
]
  where
    got : Received
    got = ht_recv_packet s.conn buf s.world

    next : Session
    next = dispatch (decode got.buf) got.from_tcp (record { conn = got.conn; world = got.world })

    over : is_pos got.value ≡ false → loss r.conn ≡ loss got.conn
    over e = ground (arith, h, e)

loss-process_events :
    (fuel : ℕ) (buf : List ℕ) (c : Conn) (w : World) {r : Step}
    → ht_process_events fuel buf c w ≡ some r
    → loss r.conn ≡ loss c
unfolding ht_process_events
loss-process_events fuel buf c w {r} h = elim (Bool-cases c.is_connected) [
  | inl e ↦ loss-events_loop fuel 0 buf (record { conn = c; world = w }) {r = r} (simp e at h)
  | inr e ↦ ground (arith, h, e)
]

loss-connect_tcp :
    (m : Mode) (c : Conn) (w : World) → c.mode ≡ m → loss (connect_tcp c w).conn ≡ loss c
unfolding connect_tcp
loss-connect_tcp udp_only c w e = ground (arith, e)
loss-connect_tcp tcp_only c w e = ground (arith, e)
loss-connect_tcp hybrid c w e = ground (arith, e)
loss-connect_tcp auto c w e = ground (arith, e)

loss-connect_udp : (c : Conn) (w : World) → loss (connect_udp c w).conn ≡ loss c
unfolding connect_udp
loss-connect_udp c w = refl

loss-connect_both :
    (c : Conn) (w : World)
    → loss (connect_tcp (connect_udp c w).conn (connect_udp c w).world).conn ≡ loss c
loss-connect_both c w =
    loss-connect_tcp _ (connect_udp c w).conn (connect_udp c w).world refl ∙ loss-connect_udp c w

loss-connect : (m : Mode) (c : Conn) (w : World) → c.mode ≡ m → loss (ht_connect c w).conn ≡ loss c
unfolding ht_connect
loss-connect udp_only c w e = ground (arith, e, loss-connect_udp c w)
loss-connect tcp_only c w e = ground (arith, e, loss-connect_tcp tcp_only c w e)
loss-connect hybrid c w e = ground (arith, e, loss-connect_udp c w, loss-connect_both c w)
loss-connect auto c w e = ground (arith, e, loss-connect_udp c w, loss-connect_both c w)

if-loss :
    (b : Bool) (s t : Step) (n : ℕ)
    → loss s.conn ≡ n
    → loss t.conn ≡ n
    → loss (if b then s else t).conn ≡ n
if-loss true s t n v u = v
if-loss false s t n v u = u

loss-disconnect : (c : Conn) (w : World) → loss (ht_disconnect c w).conn ≡ loss c
unfolding ht_disconnect
loss-disconnect c w =
    if-loss c.is_connected _ _ (loss c) (loss-notify _ _ _ true _ ∙ loss-notify _ _ _ false _) refl

-- Whatever operations are called and whatever the system answers, the loss rate in a connection's
-- record, which `ht_should_use_tcp` tests against 5 %, stays at the 0 that it is created with.
pub Reachable-loss : {c : Conn} → Reachable c → c.stats.packet_loss_rate ≡ f0
unfolding ht_create_connection ht_reset_stats
Reachable-loss (created ip port mode w h) = ground (arith, h)
Reachable-loss (connects {c} w r) = loss-connect _ c w refl ∙ Reachable-loss r
Reachable-loss (disconnects {c} w r) = loss-disconnect c w ∙ Reachable-loss r
Reachable-loss (sends fl {c} bytes w r) = loss-send_data fl c bytes w ∙ Reachable-loss r
Reachable-loss (receives {c} size r) = loss-recv_data c size ∙ Reachable-loss r
Reachable-loss (processes fuel buf {c} w h r) =
    loss-process_events fuel buf c w h ∙ Reachable-loss r
Reachable-loss (waits {c} w r) = loss-handle_timeout c w ∙ Reachable-loss r
Reachable-loss (resets {c} r) = refl
