-- ===== src/Forwarder/Tests.antt =====
-- Tests of rdp_forwarder.c at concrete pairs.
mod Rounds
mod Configuration
use remote_trans.Base.{ℕ, ◌+◌, ◌≡◌, refl, true, false, none, some, [], ◌∷◌, ℤ, pos, arith, length}
use remote_trans.Base.{List}
use remote_trans.Forwarder.Lines.{
  skipped, invalid, setting, skip_blanks, cut_white, trim, read_trimmed, read_line,
}
use remote_trans.Forwarder.Lines.Reading.{IsKey, read_line-written, read_line-line_feed}
use remote_trans.Transport.Types.{tcp_only}
use remote_trans.Base.{minus_one}
use remote_trans.Forwarder.Reconnect.{
  connect_to_target, reconnect_tcp, reconnect, try_reconnect_target,
}
use remote_trans.Forwarder.Reconnect.Attempts.{Attempt, try_reconnect_target-Attempt}
use remote_trans.World.{Reply, Call, World, after, malloc, time, send, recv}
use remote_trans.Forwarder.Types.{Pair, Pool, Config, Served, connected, active}
use remote_trans.Forwarder.State.{set_connection_state}
use remote_trans.Forwarder.Pool.{cleanup_connection, update_stats}
use remote_trans.Forwarder.Pool.Removal.{live, cleanup_removes}
use remote_trans.Forwarder.Pool.Sums.{update_stats_totals}
use remote_trans.Forwarder.Data.{write_all, account_forwarded, forward_data}
use remote_trans.Forwarder.Data.Passed.{Passed}
use remote_trans.Forwarder.Data.Delivery.{forward_data_delivers}
use remote_trans.Forwarder.Data.Completion.{Takes, forward_data_ends}

abbrev pub pair : ℤ → Pair
pair fd = record {
  client_fd = fd;
  target_fd = pos 4;
  target_ip = [];
  last_activity = 0;
  is_active = true;
  bytes_sent = 10;
  bytes_received = 20;
  ht_conn = none;
  use_hybrid_transport = false;
  client_disconnected = false;
  target_ready = false;
  disconnect_time = 0;
  reconnect_attempts = pos 0;
  state = connected;
  state_change_time = 0;
  connection_start_time = 0;
  last_error = [];
  error_count = pos 0;
}

abbrev pub settings : Config
settings = record {
  target_ip = 49 ∷ [];
  target_port = pos 3389;
  listen_port = pos 3389;
  listen_interface = [];
  max_clients = pos 10;
  connection_timeout = pos 300;
  reconnect_interval = pos 5;
  verbose_logging = pos 1;
  buffer_size = pos 8192;
  socket_timeout = pos 30;
  enable_stats = pos 1;
  stats_interval = pos 60;
  log_file = [];
  transport_mode = tcp_only;
  udp_preference = 0;
  retransmit_timeout = pos 100;
  max_retransmit = pos 3;
  heartbeat_interval = pos 1000;
  enable_fast_reconnect = pos 0;
  keep_target_alive = pos 1;
  reconnect_delay = pos 100;
  max_reconnect_attempts = pos 5;
  connection_pool_size = pos 2;
}

-- Three bytes wait; a socket takes two of several bytes, and a single one.
abbrev pub script : ℕ → Call → Reply
script n (recv fd) = record {
  ret = pos 3;
  errno = 0;
  bytes = 1 ∷ 2 ∷ 3 ∷ [];
  time = record { sec = 9; usec = 0 };
}
script n (send fd (a ∷ (b ∷ bs))) = record {
  ret = pos 2;
  errno = 0;
  bytes = [];
  time = record { sec = 9; usec = 0 };
}
script n c = record { ret = pos 1; errno = 0; bytes = []; time = record { sec = 9; usec = 0 } }

abbrev pub quiet : World
quiet = record {
  script = script;
  tick = 0;
  errno = 0;
  calls = [];
  faulted = false;
  initialized = false;
  behind = λ n. [];
}

script-Takes : Takes (pos 4) quiet
script-Takes n [] = refl
script-Takes n (a ∷ []) = refl
script-Takes n (a ∷ (b ∷ bs)) = refl

-- Three of four slots are in use.
abbrev pub table : Pool
table = record {
  connections = pair (pos 11) ∷ pair (pos 12) ∷ pair (pos 13) ∷ pair (pos 14) ∷ [];
  connection_count = 3;
}

cleanup_removes_example :
    let u = (cleanup_connection (pos 1) table quiet).0 in
    (live u ≡ pair (pos 11) ∷ pair (pos 13) ∷ [])
    × (u.connection_count + 1 ≡ 3)
    × (length u.connections ≡ 4)
cleanup_removes_example = cleanup_removes 1 table quiet (omega arith) (omega arith)

update_stats_totals_example :
    ((update_stats table).active_connections ≡ 3)
    × ((update_stats table).total_bytes_sent ≡ 30)
    × ((update_stats table).total_bytes_received ≡ 60)
update_stats_totals_example = update_stats_totals table

abbrev forwarded : Served
forwarded = record {
  value = pos 3;
  pair = record (pair (pos 3)) {
    bytes_sent = 13;
    last_activity = 9;
    state = active;
    state_change_time = 9;
  };
  world = record quiet {
    tick = 6;
    calls =
        time
        ∷ time
        ∷ send (pos 4) (3 ∷ [])
        ∷ send (pos 4) (1 ∷ 2 ∷ 3 ∷ [])
        ∷ recv (pos 3)
        ∷ malloc
        ∷ [];
  };
}

forward_data_run :
    forward_data 4 settings (pos 3) (pos 4) true [] (pair (pos 3)) quiet ≡ some forwarded
unfolding forward_data write_all account_forwarded set_connection_state after
forward_data_run = refl

forward_data_delivers_example :
    (pos 3 ≡ pos 3)
    × Passed (pos 4) quiet forwarded.world (1 ∷ 2 ∷ 3 ∷ [])
    × (forwarded.pair.bytes_sent ≡ 13)
    × (forwarded.pair.bytes_received ≡ 20)
unfolding after
forward_data_delivers_example =
    forward_data_delivers 4 settings (pos 3) (pos 4) true [] (pair (pos 3)) quiet forward_data_run
      refl

forward_data_ends_example :
    (s : Served) × (forward_data 4 settings (pos 3) (pos 4) true [] (pair (pos 3)) quiet ≡ some s)
unfolding after
forward_data_ends_example =
    forward_data_ends 4 settings (pos 3) (pos 4) true [] (pair (pos 3)) quiet script-Takes
      (omega arith)

-- "log", "on" and the line " log = on\r\n"
abbrev key : List ℕ
key = 108 ∷ 111 ∷ 103 ∷ []

abbrev value : List ℕ
value = 111 ∷ 110 ∷ []

key-IsKey : IsKey key
key-IsKey = record {
  solid = (refl, (refl, (refl, (refl, tt))));
  no_equals = (refl, (refl, (refl, tt)));
  no_comment = refl;
}

read_line-written_example :
    read_line (32 ∷ 108 ∷ 111 ∷ 103 ∷ 32 ∷ 61 ∷ 32 ∷ 111 ∷ 110 ∷ 13 ∷ 10 ∷ []) ≡ setting key value
read_line-written_example =
    read_line-written (32 ∷ []) key (32 ∷ []) (32 ∷ []) value (13 ∷ 10 ∷ []) key-IsKey
      (refl, (refl, (refl, tt))) (refl, tt) (refl, tt) (refl, tt) (refl, (refl, tt))

read_line-line_feed_example : read_line (32 ∷ 9 ∷ 10 ∷ []) ≡ invalid
read_line-line_feed_example = read_line-line_feed (32 ∷ 9 ∷ []) (refl, (refl, tt))

-- Without a line feed, an empty line is skipped, and so is a comment.
read_line_skips :
    (read_line [] ≡ skipped)
    × (read_line (32 ∷ 32 ∷ []) ≡ skipped)
    × (read_line (32 ∷ 35 ∷ 61 ∷ 10 ∷ []) ≡ skipped)
unfolding read_line read_trimmed trim skip_blanks cut_white
read_line_skips = (refl, refl, refl)

-- No client and no target.
abbrev lonely : Pair
lonely = record (pair minus_one) { target_fd = minus_one; client_disconnected = true }

try_reconnect_target-Attempt_example :
    Attempt settings lonely quiet (try_reconnect_target settings lonely quiet)
try_reconnect_target-Attempt_example = try_reconnect_target-Attempt settings lonely quiet refl

-- The script opens a socket with the descriptor 1 and connects it.
try_reconnect_run :
    let s = try_reconnect_target settings lonely quiet in
    (s.value ≡ pos 0) × (s.pair.target_fd ≡ pos 1) × (s.pair.reconnect_attempts ≡ pos 1)
unfolding try_reconnect_target reconnect reconnect_tcp connect_to_target after
try_reconnect_run = (refl, refl, refl)
