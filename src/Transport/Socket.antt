-- ===== src/Transport/Socket.antt =====
-- hybrid_transport.c: sockets, and the life of a connection.
pub mod Balance
pub mod Connect
use remote_trans.Base.{
  ℕ, zero, negsuc, ◌%◌, ◌^◌, Bool, true, false, not, ◌&&◌, Option, none, some, List, [], ℤ, pos,
  minus_one, pos_part, is_neg, is_pos, ◌==◌, if◌then◌else◌, to_u32,
}
use remote_trans.Floats.{f0_8}
use remote_trans.World.{
  World, reply, after, einprogress, gettimeofday, time, rand, malloc, socket_dgram, socket_stream,
  inet_pton, setsockopt, fcntl_getfl, fcntl_setfl, close, connect,
}
use remote_trans.Transport.Types.{
  Mode, udp_only, tcp_only, Packet, Conn, Step, type_control, ht_max_sequence, ht_window_size,
  ht_retransmit_timeout, ht_max_retransmit,
}
use remote_trans.Transport.Wire.{blank_packet, seal}
use remote_trans.Transport.Clock.{get_timestamp_ms}
use remote_trans.Transport.Statistics.{empty_stats}
use remote_trans.Transport.Send.{ht_send_packet, next_sequence}

abbrev is_error : ℤ → Bool
is_error (negsuc zero) = true
is_error n = false

-- A call's result with the world after it.
unfoldable pub set_nonblocking : ℤ → World → ℤ × World
set_nonblocking fd w =
    let w' = after (fcntl_getfl fd) w in
    if is_error (reply (fcntl_getfl fd) w).ret
    then (minus_one, w')
    else ((reply (fcntl_setfl fd) w').ret, after (fcntl_setfl fd) w')

-- The end of both `create_*_socket`: the descriptor is closed if it cannot be made non-blocking.
unfoldable pub finish_socket : ℤ → World → ℤ × World
finish_socket fd w =
    let (r, w') = set_nonblocking fd w in
    if is_neg r then (minus_one, after (close fd) w') else (fd, w')

unfoldable pub create_udp_socket : World → ℤ × World
create_udp_socket w =
    let fd = (reply socket_dgram w).ret in
    let w' = after socket_dgram w in
    if is_neg fd then (minus_one, w') else finish_socket fd (after (setsockopt fd) w')

-- SO_REUSEADDR and TCP_NODELAY
unfoldable pub create_tcp_socket : World → ℤ × World
create_tcp_socket w =
    let fd = (reply socket_stream w).ret in
    let w' = after socket_stream w in
    if is_neg fd
    then (minus_one, w')
    else finish_socket fd (after (setsockopt fd) (after (setsockopt fd) w'))

-- The seed of the random numbers is the script's.
unfoldable pub ht_init : World → ℤ × World
ht_init w =
    if w.initialized then (pos 0, w) else (pos 0, record (after time w) { initialized = true })

unfoldable pub ht_cleanup : World → World
ht_cleanup w = record w { initialized = false }

-- A null pointer is `none`. The random start of the sequence is `rand() % HT_MAX_SEQUENCE`.
unfoldable pub ht_create_connection : List ℕ → ℤ → Mode → World → Option Conn × World
ht_create_connection ip port mode w =
    let w0 = (ht_init w).1 in
    let w1 = after malloc w0 in
    let w2 = after (inet_pton ip) w1 in
    let w3 = after rand w2 in
    let now = (reply gettimeofday w3).time in
    if is_neg (reply malloc w0).ret
    then (none, w1)
    else if not (is_pos (reply (inet_pton ip) w1).ret)
    then (none, w2)
    else (
      some (record {
        udp_fd = minus_one;
        tcp_fd = minus_one;
        remote_addr = record { ip = ip; port = to_u32 port % 2 ^ 16 };
        mode = mode;
        send_sequence = pos_part (reply rand w2).ret % ht_max_sequence;
        recv_sequence = 0;
        ack_sequence = 0;
        send_buffer = [];
        recv_buffer = [];
        send_window_size = ht_window_size;
        recv_window_size = ht_window_size;
        last_heartbeat = now;
        last_activity = now;
        stats = empty_stats;
        is_connected = false;
        is_closing = false;
        retransmit_timeout = pos ht_retransmit_timeout;
        max_retransmit = pos ht_max_retransmit;
        udp_preference = f0_8;
      }),
      after gettimeofday w3,
    )

-- `if (fd >= 0) { close(fd); fd = -1; }`: the descriptor field after it, and the world.
abbrev pub closed : ℤ → ℤ
closed fd = if is_neg fd then fd else minus_one

abbrev pub close_open : ℤ → World → World
close_open fd w = if is_neg fd then w else after (close fd) w

-- The connection and its buffers are freed with it.
unfoldable pub ht_destroy_connection : Conn → World → World
ht_destroy_connection c w = close_open c.tcp_fd (close_open c.udp_fd w)

abbrev pub step : ℤ → Conn → World → Step
step v c w = record { value = v; conn = c; world = w }

-- The end of `ht_connect`.
abbrev pub connected : Conn → World → Step
connected c w =
    step (pos 0) (record c { is_connected = true; last_activity = (reply gettimeofday w).time })
      (after gettimeofday w)

-- Its TCP half, for a mode that has one.
unfoldable pub connect_tcp : Conn → World → Step
connect_tcp c w =
    let (fd, w1) = create_tcp_socket w in
    let w2 = after (connect fd) w1 in
    let w3 = after (close fd) w2 in
    if is_neg fd
    then step minus_one (record c { udp_fd = closed c.udp_fd; tcp_fd = fd })
        (close_open c.udp_fd w1)
    else if is_neg (reply (connect fd) w1).ret && not (w2.errno == einprogress)
    then elim c.mode [
      | tcp_only ↦
          step minus_one (record c { udp_fd = closed c.udp_fd; tcp_fd = minus_one })
            (close_open c.udp_fd w3)
      | _ ↦ connected (record c { tcp_fd = minus_one }) w3
    ]
    else connected (record c { tcp_fd = fd }) w2

unfoldable pub connect_udp : Conn → World → Step
connect_udp c w =
    let (fd, w1) = create_udp_socket w in
    step (if is_neg fd then minus_one else pos 0) (record c { udp_fd = fd }) w1

unfoldable pub ht_connect : Conn → World → Step
ht_connect c w = if c.is_connected then step minus_one c w else elim c.mode [
  | tcp_only ↦ connect_tcp c w
  | udp_only ↦ let u = connect_udp c w in if is_neg u.value then u else connected u.conn u.world
  | _ ↦ let u = connect_udp c w in if is_neg u.value then u else connect_tcp u.conn u.world
]

-- One of the two attempts of `ht_disconnect`, whose result the source ignores.
unfoldable pub notify : ℤ → Conn → Packet → Bool → World → Step
notify fd c p tcp w = if is_neg fd then step (pos 0) c w else ht_send_packet c p tcp w

unfoldable pub close_packet : Conn → World → Packet
close_packet c w =
    let p =
      blank_packet type_control c.send_sequence (get_timestamp_ms (reply gettimeofday w).time) in
    record p { header = record p.header { flags = 1 } }

-- Each open channel is tried once; the descriptors stay open.
unfoldable pub ht_disconnect : Conn → World → Step
ht_disconnect c w =
    let p = close_packet c w in
    let c1 = next_sequence (record c { is_closing = true }) in
    let u = notify c1.udp_fd c1 p false (after gettimeofday w) in
    let t = notify u.conn.tcp_fd u.conn (seal p) true u.world in
    if c.is_connected
    then step (pos 0) (record t.conn { is_connected = false }) t.world
    else step minus_one c w
