-- ===== src/Forwarder/State.antt =====
-- rdp_forwarder.c: the state of a pair, and the end of a client's connection. The time that the log
-- lines read is left out with them.
use remote_trans.Base.{
  ℕ, Bool, true, false, not, ◌&&◌, Option, none, some, List, ℤ, pos, minus_one, is_pos, is_set,
  is_neg, ◌==◌, if◌then◌else◌, ◌+ℤ◌, take,
}
use remote_trans.World.{World, reply, after, time, close, peek, would_block}
use remote_trans.Transport.Types.{Conn}
use remote_trans.Transport.Socket.{ht_disconnect, ht_destroy_connection}
use remote_trans.Forwarder.Types.{
  ConnState, Pair, Config, state_number, error, client_disconnected, target_disconnected,
}

abbrev pub same_state : ConnState → ConnState → Bool
same_state a b = state_number a == state_number b

-- `strncpy` into 256 bytes with the end set. The reason for any other state is only logged: where it
-- is a literal, it is left out.
abbrev record_error : ConnState → Option (List ℕ) → Pair → Pair
record_error s none p = p
record_error s (some reason) p =
    if same_state s error
    then record p { last_error = take 255 reason; error_count = p.error_count +ℤ pos 1 }
    else p

unfoldable pub set_connection_state : Pair → ConnState → Option (List ℕ) → World → Pair × World
set_connection_state p s reason w = if same_state p.state s then (p, w) else (
  record_error s reason (record p { state = s; state_change_time = (reply time w).time.sec }),
  after time w,
)

-- `log_connection_error` without its log lines: the side that failed becomes the state.
unfoldable pub log_connection_error : Pair → List ℕ → Bool → World → Pair × World
log_connection_error p reason is_client_side w =
    set_connection_state p (if is_client_side then client_disconnected else target_disconnected)
      (some reason) w

-- `if (fd > 0) { close(fd); fd = -1; }`
abbrev pub shut : ℤ → ℤ
shut fd = if is_pos fd then minus_one else fd

abbrev pub close_positive : ℤ → World → World
close_positive fd w = if is_pos fd then after (close fd) w else w

-- `ht_disconnect`, then `ht_destroy_connection`, if there is a hybrid connection.
unfoldable pub end_hybrid : Option Conn → World → World
end_hybrid none w = w
end_hybrid (some c) w = let s = ht_disconnect c w in ht_destroy_connection s.conn s.world

unfoldable pub handle_client_disconnect : Config → Pair → World → Pair × World
handle_client_disconnect cfg p w =
    let w1 = close_positive p.client_fd w in
    let q = record p {
      client_fd = shut p.client_fd;
      client_disconnected = true;
      disconnect_time = (reply time w1).time.sec;
      reconnect_attempts = pos 0;
    } in
    let w2 = after time w1 in
    if is_set cfg.keep_target_alive then (record q { target_ready = true }, w2) else (
      record q {
        target_fd = shut p.target_fd;
        ht_conn = none;
        target_ready = false;
        use_hybrid_transport = false;
      },
      end_hybrid p.ht_conn (close_positive p.target_fd w2),
    )

unfoldable pub reset_connection_for_reuse : Pair → World → Pair × World
reset_connection_for_reuse p w = (
  record p {
    client_disconnected = false;
    target_ready = false;
    disconnect_time = 0;
    reconnect_attempts = pos 0;
    last_activity = (reply time w).time.sec;
    bytes_sent = 0;
    bytes_received = 0;
  },
  after time w,
)

unfoldable pub is_client_socket_alive : ℤ → World → Bool × World
is_client_socket_alive fd w =
    let w1 = after (peek fd) w in
    if not (is_pos fd)
    then (false, w)
    else if is_pos (reply (peek fd) w).ret
    then (true, w1)
    else (is_neg (reply (peek fd) w).ret && would_block w1.errno, w1)
