-- ===== src/Forwarder/Reconnect.antt =====
-- rdp_forwarder.c: new connections to the target, and `try_reconnect_target`.
pub mod Attempts
use remote_trans.Base.{
  ℕ, Bool, true, false, not, ◌&&◌, ◌||◌, Option, none, some, List, ℤ, pos, minus_one, is_pos,
  is_neg, ltb_ℤ, if◌then◌else◌, ◌+ℤ◌,
}
use remote_trans.World.{World, reply, after, socket_stream, inet_pton, connect, close, setsockopt}
use remote_trans.Transport.Types.{Mode, tcp_only, Conn}
use remote_trans.Transport.Socket.{
  set_nonblocking, ht_create_connection, ht_connect, ht_destroy_connection,
}
use remote_trans.Forwarder.Types.{Pair, Config, Served}

abbrev pub served : ℤ → Pair → World → Served
served v p w = record { value = v; pair = p; world = w }

-- The descriptor, or -1 with the socket closed.
unfoldable pub connect_to_target : List ℕ → World → ℤ × World
connect_to_target ip w =
    let fd = (reply socket_stream w).ret in
    let w1 = after socket_stream w in
    let w2 = after (inet_pton ip) w1 in
    let w3 = after (connect fd) w2 in
    if is_neg fd
    then (minus_one, w1)
    else if not (is_pos (reply (inet_pton ip) w1).ret)
    then (minus_one, after (close fd) w2)
    else if is_neg (reply (connect fd) w2).ret
    then (minus_one, after (close fd) w3)
    else (fd, w3)

-- Only the calls: what `setsockopt` answers is logged.
unfoldable pub configure_tcp_socket : Config → ℤ → World → World
configure_tcp_socket cfg fd w =
    let w1 = after (setsockopt fd) (after (setsockopt fd) w) in
    if not (is_pos fd)
    then w
    else if is_pos cfg.socket_timeout
    then after (setsockopt fd) (after (setsockopt fd) w1)
    else w1

-- `ht_conn` with the settings of the configuration.
abbrev pub configured : Config → Conn → Conn
configured cfg c = record c {
  udp_preference = cfg.udp_preference;
  retransmit_timeout = cfg.retransmit_timeout;
  max_retransmit = cfg.max_retransmit;
}

unfoldable pub create_hybrid_connection : Config → Pair → List ℕ → ℤ → World → Served
create_hybrid_connection cfg p ip port w =
    let (made, w1) = ht_create_connection ip port cfg.transport_mode w in
    elim made [
      | none ↦ served minus_one (record p { ht_conn = none }) w1
      | some c ↦
          let s = ht_connect (configured cfg c) w1 in
          if is_neg s.value
          then served minus_one (record p { ht_conn = none }) (ht_destroy_connection s.conn s.world)
          else served (pos 0) (record p { ht_conn = some s.conn; use_hybrid_transport = true })
              s.world
    ]

-- `conn->ht_conn && conn->use_hybrid_transport`
abbrev pub has_hybrid : Pair → Bool
has_hybrid p = elim p.ht_conn [ none ↦ false | some c ↦ p.use_hybrid_transport ]

-- The way back to plain TCP. `port` is only part of the address.
unfoldable pub reconnect_tcp : Config → Pair → World → Served
reconnect_tcp cfg p w =
    let (fd, w1) = connect_to_target cfg.target_ip w in
    if is_neg fd
    then served minus_one p w1
    else served (pos 0) (record p { target_fd = fd; target_ready = true })
        (configure_tcp_socket cfg fd (set_nonblocking fd w1).1)

-- Hybrid first, unless the mode is TCP only, and then TCP.
unfoldable pub reconnect : Config → Pair → World → Served
reconnect cfg p w =
    let h = create_hybrid_connection cfg p cfg.target_ip cfg.target_port w in
    elim cfg.transport_mode [
      | tcp_only ↦ reconnect_tcp cfg p w
      | _ ↦
          if is_neg h.value
          then reconnect_tcp cfg h.pair h.world
          else served (pos 0) (record h.pair { target_ready = true }) h.world
    ]

unfoldable pub try_reconnect_target : Config → Pair → World → Served
try_reconnect_target cfg p w =
    let q = record p { reconnect_attempts = p.reconnect_attempts +ℤ pos 1 } in
    if not p.client_disconnected || not (ltb_ℤ p.reconnect_attempts cfg.max_reconnect_attempts)
    then served minus_one p w
    else if q.target_ready && (is_pos q.target_fd || has_hybrid q)
    then served (pos 0) q w
    else reconnect cfg q w
