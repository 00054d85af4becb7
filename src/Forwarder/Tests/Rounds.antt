-- ===== src/Forwarder/Tests/Rounds.antt =====
-- Tests of the main loop of rdp_forwarder.c, and of its hybrid data path.
use remote_trans.Base.{
  ℕ, ◌+◌, ◌≡◌, refl, true, false, Option, none, some, List, [], ◌∷◌, ℤ, pos, is_pos, arith,
}
use remote_trans.Floats.{Floats}
use remote_trans.World.{Reply, Call, World, after, send, recvfrom, socket_stream, select}
use remote_trans.Transport.Types.{udp_only, Conn}
use remote_trans.Transport.Statistics.{empty_stats}
use remote_trans.Forwarder.Types.{Pair, Pool, Served}
use remote_trans.Forwarder.Pool.Removal.{live}
use remote_trans.Forwarder.Wiring.{IsPair}
use remote_trans.Forwarder.Hybrid.{forward_data_hybrid}
use remote_trans.Forwarder.Hybrid.Wired.{forward_data_hybrid-IsPair}
use remote_trans.Forwarder.Server.{Env, Server, no_totals}
use remote_trans.Forwarder.Server.Serving.{serve_pairs}
use remote_trans.Forwarder.Server.Serving.Each.{seen, serve_each, serve_pairs_each}
use remote_trans.Forwarder.Server.Admission.{accept_client}
use remote_trans.Forwarder.Server.Admission.Outcome.{Outcome}
use remote_trans.Forwarder.Server.Rounds.{Running, start, rounds, run, shut_down}
use remote_trans.Forwarder.Server.Invariant.{IsTable}
use remote_trans.Forwarder.Server.Invariant.Whole.{rounds-IsTable}
use remote_trans.Forwarder.Server.Closing.{closes}
use remote_trans.Forwarder.Server.Closing.Shutdown.{shut_down-closes}
use remote_trans.Forwarder.Server.Completion.{Flows}
use remote_trans.Forwarder.Server.Completion.Looping.{run_ends}
use remote_trans.Descriptors.{opened, closed}
use remote_trans.Forwarder.Server.Ledger.Whole.{run_balances}
use remote_trans.Transport.Socket.{ht_init, ht_cleanup, set_nonblocking}
use remote_trans.Transport.Send.{
  ht_send_data, send_loop, send_chunk, transmit, ht_should_use_tcp, send_either, ht_send_packet,
  account_sent, remember,
}
use remote_trans.Transport.Wire.{decode}
use remote_trans.Transport.Recv.{ht_recv_packet, poll_udp, poll_tcp, overlay, validate}
use remote_trans.Transport.Events.{ht_process_events, events_loop}
use remote_trans.Forwarder.State.{set_connection_state, log_connection_error, end_hybrid}
use remote_trans.Forwarder.Pool.{cleanup_connection, close_at, close_pair}
use remote_trans.Forwarder.Reconnect.{connect_to_target, configure_tcp_socket}
use remote_trans.Forwarder.Hybrid.{forward_over, move_data, client_to_hybrid, settle}
use remote_trans.Forwarder.Server.{init_stats, report_stats, print_stats, create_listen_socket}
use remote_trans.Forwarder.Server.Watching.{reconnect_pass, revive_all}
use remote_trans.Forwarder.Server.Admission.{admit_at, admit_new, new_pair, find_reusable}
use remote_trans.Forwarder.Server.Serving.{
  serve_from, pair_turn, tcp_turn, client_turn, target_turn, end_turn,
}
use remote_trans.Forwarder.Server.Rounds.{round, prepare, attend, cleanup_all}
use remote_trans.Forwarder.Tests.{pair, settings, script, quiet, table}

abbrev pub floats : Floats
floats = record {
  add = λ x y. x;
  sub = λ x y. x;
  div = λ x y. x;
  lt = λ x y. false;
  of_nat = λ n. n;
  atof = λ bs. 0;
}

-- Room for two clients.
abbrev env : Env
env = record {
  config = record settings { max_clients = pos 2 };
  floats = floats;
  fuel = 4;
  buf = [];
  reason = [];
}

abbrev memory : List Pair
memory = pair (pos 7) ∷ pair (pos 8) ∷ []

-- A socket's descriptor is the number of calls up to it, so the first one is 4; it is ready in each
-- round.
abbrev busy_script : ℕ → Call → Reply
busy_script n (select fds) = record {
  ret = pos 1;
  errno = 0;
  bytes = 4 ∷ [];
  time = record { sec = 9; usec = 0 };
}
busy_script n socket_stream = record {
  ret = pos (n + 1);
  errno = 0;
  bytes = [];
  time = record { sec = 9; usec = 0 };
}
busy_script n c = script n c

abbrev busy : World
busy = record quiet { script = busy_script }

busy-Flows : Flows 4 busy_script
busy-Flows = record { takes = λ n fd bs. takes n fd bs; brings = λ n fd. omega arith }
  where
    takes : (n : ℕ) (fd : ℤ) (bs : List ℕ) → is_pos (busy_script n (send fd bs)).ret ≡ true
    takes n fd [] = refl
    takes n fd (a ∷ []) = refl
    takes n fd (a ∷ (b ∷ bs)) = refl

abbrev or_else {ℓ} : {A : Type ℓ} → A → Option A → A
or_else a none = a
or_else a (some b) = b

abbrev server : Server
server = record {
  pool = table;
  stats = record { total_connections = 3; totals = no_totals; start_time = 0; last_stats_time = 0 };
}

abbrev started : ℤ × Running
started = or_else (pos 0, record { server = server; world = busy }) (start memory busy)

started_run : start memory busy ≡ some started
unfolding start ht_init init_stats create_listen_socket after
started_run = refl

abbrev one_round : Running
one_round = or_else started.1 (rounds env (pos 4) 1 started.1)

-- A client has been accepted.
one_round_run :
    (rounds env started.0 1 started.1 ≡ some one_round)
    × (one_round.server.pool.connection_count ≡ 1)
unfolding start ht_init init_stats create_listen_socket rounds round prepare attend report_stats
    print_stats reconnect_pass revive_all accept_client admit_at admit_new new_pair
    set_connection_state connect_to_target configure_tcp_socket set_nonblocking serve_pairs
    serve_from pair_turn tcp_turn client_turn target_turn end_turn after find_reusable
one_round_run = (refl, refl)

rounds-IsTable_example : IsTable env.config one_round.server.pool
rounds-IsTable_example = rounds-IsTable env memory busy 1 refl started_run one_round_run.0

run_ends_example : (r : Pool × World) × (run env 2 started.0 started.1 ≡ some r)
run_ends_example = run_ends env memory busy 2 refl refl busy-Flows started_run

abbrev finished : Pool × World
finished = or_else (table, busy) (run env 1 started.0 started.1)

-- `main` itself has opened the descriptor 4.
finished-run : (run env 1 started.0 started.1 ≡ some finished) × (opened 4 finished.1 ≡ 1)
unfolding start ht_init init_stats create_listen_socket rounds round prepare attend report_stats
    print_stats reconnect_pass revive_all accept_client admit_at admit_new new_pair
    set_connection_state connect_to_target configure_tcp_socket set_nonblocking serve_pairs
    serve_from pair_turn tcp_turn client_turn target_turn end_turn after find_reusable run shut_down
    cleanup_all cleanup_connection close_at close_pair end_hybrid ht_cleanup opened
finished-run = (refl, refl)

run_balances_example : opened 4 finished.1 ≡ closed 4 finished.1
run_balances_example =
    run_balances env memory busy 1 3 refl refl refl refl started_run finished-run.0

serve_pairs_each_example :
    seen (serve_pairs env (λ fd. true) table busy) ≡ serve_each env (λ fd. true) (live table) busy
serve_pairs_each_example = serve_pairs_each env (λ fd. true) table busy (omega arith)

shut_down-closes_example :
    let (t, u) = shut_down (pos 4) server busy in
    (t.connection_count ≡ 0) × (closes (pos 4) u.calls ≡ 4)
shut_down-closes_example = shut_down-closes (pos 4) (pos 4) server busy (omega arith)

-- A client with a hybrid connection to its target: it sends three bytes, and nothing arrives.
abbrev hybrid_script : ℕ → Call → Reply
hybrid_script n (recvfrom fd) = record {
  ret = pos 0;
  errno = 0;
  bytes = [];
  time = record { sec = 9; usec = 0 };
}
hybrid_script n c = script n c

abbrev open_conn : Conn
open_conn = record {
  udp_fd = pos 3;
  tcp_fd = pos 4;
  remote_addr = record { ip = 49 ∷ []; port = 3389 };
  mode = udp_only;
  send_sequence = 7;
  recv_sequence = 0;
  ack_sequence = 0;
  send_buffer = [];
  recv_buffer = [];
  send_window_size = 64;
  recv_window_size = 64;
  last_heartbeat = record { sec = 9; usec = 500 };
  last_activity = record { sec = 9; usec = 500 };
  stats = empty_stats;
  is_connected = true;
  is_closing = false;
  retransmit_timeout = pos 100;
  max_retransmit = pos 3;
  udp_preference = 0;
}

abbrev hybrid_world : World
hybrid_world = record quiet { script = hybrid_script; errno = 11 }

abbrev hybrid_pair : Pair
hybrid_pair = record (pair (pos 5)) { ht_conn = some open_conn; use_hybrid_transport = true }

hybrid_pair-IsPair : IsPair udp_only hybrid_pair
hybrid_pair-IsPair = record {
  plain = λ e. cc;
  hybrid = record {
    send_sequence = omega arith;
    recv_sequence = omega arith;
    ack_sequence = omega arith;
    recv_window = omega arith;
    outgoing = tt;
  };
  active = refl;
  used = λ e. refl;
  alone = λ e. cc;
  free_fd = λ e r. cc;
  free_conn = λ e r. cc;
}

abbrev hybrid_served : Served
hybrid_served =
    or_else (record { value = pos 0; pair = hybrid_pair; world = hybrid_world })
      (forward_data_hybrid floats 4 [] true [] hybrid_pair hybrid_world)

hybrid_run : forward_data_hybrid floats 4 [] true [] hybrid_pair hybrid_world ≡ some hybrid_served
unfolding forward_data_hybrid forward_over move_data client_to_hybrid settle ht_send_data send_loop
    send_chunk transmit ht_should_use_tcp ht_process_events events_loop ht_recv_packet poll_udp
    poll_tcp overlay after log_connection_error set_connection_state send_either ht_send_packet
    account_sent remember validate decode
hybrid_run = refl

forward_data_hybrid-IsPair_example : IsPair udp_only hybrid_served.pair
forward_data_hybrid-IsPair_example =
    forward_data_hybrid-IsPair floats 4 [] true [] hybrid_pair hybrid_world hybrid_pair-IsPair
      hybrid_run
