-- ===== src/Transport/Invariant/Lifetime.antt =====
-- The invariant over the whole life of a connection: whatever operations are called, in whatever
-- order, and whatever the system answers.
use remote_trans.Base.{
  ℕ, ◌≡◌, refl, if◌then◌else◌, Bool, true, false, some, List, ℤ, arith, is_neg, Bool-cases, inl,
  inr,
}
use remote_trans.Floats.{Floats}
use remote_trans.World.{World}
use remote_trans.Transport.Types.{Mode, udp_only, tcp_only, hybrid, auto, Packet, Conn, Step}
use remote_trans.Transport.Statistics.{ht_reset_stats}
use remote_trans.Transport.Send.{next_sequence, ht_send_data}
use remote_trans.Transport.Send.Frame.{send_packet-Keeps}
use remote_trans.Transport.Recv.{ht_recv_data}
use remote_trans.Transport.Events.{ht_process_events}
use remote_trans.Transport.Timeout.{ht_handle_timeout}
use remote_trans.Transport.Socket.{
  ht_create_connection, connect_tcp, connect_udp, ht_connect, notify, ht_disconnect,
}
use remote_trans.Transport.Invariant.{IsConn, next_sequence-IsConn, Accounts-IsConn}
use remote_trans.Transport.Invariant.Sending.{create_connection-IsConn, send_data-IsConn}
use remote_trans.Transport.Invariant.Receiving.{process_events-IsConn, recv_data-IsConn}
use remote_trans.Transport.Invariant.Timers.{handle_timeout-IsConn}

connect_tcp-IsConn :
    (m : Mode) (c : Conn) (w : World) → c.mode ≡ m → IsConn c → IsConn (connect_tcp c w).conn
unfolding connect_tcp
connect_tcp-IsConn udp_only c w e v = ground (arith, e)
connect_tcp-IsConn tcp_only c w e v = ground (arith, e)
connect_tcp-IsConn hybrid c w e v = ground (arith, e)
connect_tcp-IsConn auto c w e v = ground (arith, e)

connect_udp-IsConn : (c : Conn) (w : World) → IsConn c → IsConn (connect_udp c w).conn
unfolding connect_udp
connect_udp-IsConn c w v = ground arith

connect_both-IsConn :
    (c : Conn) (w : World)
    → IsConn c
    → IsConn (connect_tcp (connect_udp c w).conn (connect_udp c w).world).conn
connect_both-IsConn c w v =
    connect_tcp-IsConn _ (connect_udp c w).conn (connect_udp c w).world refl
      (connect_udp-IsConn c w v)

pub connect-IsConn :
    (m : Mode) (c : Conn) (w : World) → c.mode ≡ m → IsConn c → IsConn (ht_connect c w).conn
unfolding ht_connect
connect-IsConn udp_only c w e v = ground (arith, e, connect_udp-IsConn c w v)
connect-IsConn tcp_only c w e v = ground (arith, e, connect_tcp-IsConn tcp_only c w e v)
connect-IsConn hybrid c w e v =
    ground (arith, e, connect_udp-IsConn c w v, connect_both-IsConn c w v)
connect-IsConn auto c w e v = ground (arith, e, connect_udp-IsConn c w v, connect_both-IsConn c w v)

notify-IsConn :
    (fd : ℤ) (c : Conn) (p : Packet) (tcp : Bool) (w : World)
    → IsConn c
    → IsConn (notify fd c p tcp w).conn
unfolding notify
notify-IsConn fd c p tcp w v = elim (Bool-cases (is_neg fd)) [
  | inl e ↦ rw e v
  | inr e ↦ rw e (Accounts-IsConn c _ (send_packet-Keeps c p tcp w).conn v)
]

if-IsConn :
    (b : Bool) (s t : Step) → IsConn s.conn → IsConn t.conn → IsConn (if b then s else t).conn
if-IsConn true s t v u = v
if-IsConn false s t v u = u

off-IsConn : (c : Conn) → IsConn c → IsConn (record c { is_connected = false })
off-IsConn c v = ground arith

closing-IsConn : (c : Conn) → IsConn c → IsConn (record c { is_closing = true })
closing-IsConn c v = ground arith

disconnect-IsConn : (c : Conn) (w : World) → IsConn c → IsConn (ht_disconnect c w).conn
unfolding ht_disconnect
disconnect-IsConn c w v =
    if-IsConn c.is_connected _ _
      (off-IsConn _ (notify-IsConn _ _ _ true _ (notify-IsConn _ _ _ false _ started))) v
  where
    started : IsConn (next_sequence (record c { is_closing = true }))
    started = next_sequence-IsConn (record c { is_closing = true }) (closing-IsConn c v)

reset_stats-IsConn : (c : Conn) → IsConn c → IsConn (ht_reset_stats c)
unfolding ht_reset_stats
reset_stats-IsConn c v = ground arith

-- The connections that a program gets from hybrid_transport.c. Each operation is called with any
-- data in any world.
pub data Reachable : Conn → Type 0 where
  created :
      (ip : List ℕ) (port : ℤ) (mode : Mode) (w : World) {c : Conn}
      → (ht_create_connection ip port mode w).0 ≡ some c
      → Reachable c
  connects : {c : Conn} (w : World) → Reachable c → Reachable (ht_connect c w).conn
  disconnects : {c : Conn} (w : World) → Reachable c → Reachable (ht_disconnect c w).conn
  sends :
      (fl : Floats) {c : Conn} (bytes : List ℕ) (w : World)
      → Reachable c
      → Reachable (ht_send_data fl c bytes w).conn
  receives : {c : Conn} (size : ℕ) → Reachable c → Reachable (ht_recv_data c size).2
  processes :
      (fuel : ℕ) (buf : List ℕ) {c : Conn} (w : World) {r : Step}
      → ht_process_events fuel buf c w ≡ some r
      → Reachable c
      → Reachable r.conn
  waits : {c : Conn} (w : World) → Reachable c → Reachable (ht_handle_timeout c w).conn
  resets : {c : Conn} → Reachable c → Reachable (ht_reset_stats c)

-- Every connection that calls of the library's operations lead to is well formed: its sequence numbers
-- and window fit their fields, and every packet that waits for its acknowledgement has the magic
-- number, fields in range and at most 1350 bytes of payload, all there, and has been sent again at
-- most `max_retransmit` times.
pub Reachable-IsConn : {c : Conn} → Reachable c → IsConn c
Reachable-IsConn (created ip port mode w h) = create_connection-IsConn ip port mode w h
Reachable-IsConn (connects {c} w r) = connect-IsConn _ c w refl (Reachable-IsConn r)
Reachable-IsConn (disconnects {c} w r) = disconnect-IsConn c w (Reachable-IsConn r)
Reachable-IsConn (sends fl {c} bytes w r) = send_data-IsConn fl c bytes w (Reachable-IsConn r)
Reachable-IsConn (receives {c} size r) = recv_data-IsConn c size (Reachable-IsConn r)
Reachable-IsConn (processes fuel buf {c} w h r) =
    process_events-IsConn fuel buf c w (Reachable-IsConn r) h
Reachable-IsConn (waits {c} w r) = handle_timeout-IsConn c w (Reachable-IsConn r)
Reachable-IsConn (resets {c} r) = reset_stats-IsConn c (Reachable-IsConn r)
