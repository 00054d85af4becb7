-- ===== src/Forwarder/Server/Admission.antt =====
-- rdp_forwarder.c: what `main` does with a client that connects.
pub mod Reuse
pub mod Outcome
use remote_trans.Base.{
  ℕ, zero, suc, ◌+◌, ◌%◌, ◌^◌, Bool, true, false, ◌&&◌, Option, none, some, List, [], ◌∷◌, ℤ, pos,
  minus_one, is_neg, is_set, ltb_ℤ, if◌then◌else◌,
}
use remote_trans.World.{World, reply, after, time, close, accept}
use remote_trans.Transport.Socket.{set_nonblocking}
use remote_trans.Forwarder.Types.{Pair, Pool, Config, init, connecting, connected}
use remote_trans.Forwarder.State.{set_connection_state, reset_connection_for_reuse}
use remote_trans.Forwarder.Reconnect.{connect_to_target, configure_tcp_socket}
use remote_trans.Forwarder.Server.{Server, Statistics, put_at}

-- The first of the first `n` pairs that has lost its client and kept its target.
unfoldable pub find_reusable : ℕ → List Pair → Option (ℕ × Pair)
find_reusable zero ps = none
find_reusable (suc n) [] = none
find_reusable (suc n) (p ∷ ps) =
    let rest = find_reusable n ps in
    if p.client_disconnected && p.target_ready
    then some (0, p)
    else elim rest [ none ↦ none | some (i, q) ↦ some (suc i, q) ]

-- `set_nonblocking`, whose failure is only logged, and the options.
abbrev pub tune : Config → ℤ → World → World
tune cfg fd w = configure_tcp_socket cfg fd (set_nonblocking fd w).1

-- The cleared structure with the fields that `main` fills in.
unfoldable pub new_pair : Config → ℤ → World → Pair × World
new_pair cfg fd w =
    let w1 = after time w in
    set_connection_state
      (record {
        client_fd = fd;
        target_fd = minus_one;
        target_ip = cfg.target_ip;
        last_activity = (reply time w).time.sec;
        is_active = true;
        bytes_sent = 0;
        bytes_received = 0;
        ht_conn = none;
        use_hybrid_transport = false;
        client_disconnected = false;
        target_ready = false;
        disconnect_time = 0;
        reconnect_attempts = pos 0;
        state = init;
        state_change_time = 0;
        connection_start_time = (reply time w1).time.sec;
        last_error = [];
        error_count = pos 0;
      })
      connecting none (after time w1)

abbrev pub put_pair : ℕ → Pair → Server → Server
put_pair i p s = record s { pool = record s.pool { connections = put_at i p s.pool.connections } }

-- `connection_count++; stats.total_connections++;`
abbrev pub count_new : Server → Server
count_new s = record {
  pool = record s.pool { connection_count = s.pool.connection_count + 1 };
  stats = record s.stats { total_connections = (s.stats.total_connections + 1) % 2 ^ 64 };
}

-- The hybrid transport is turned off here by `0 &&`.
unfoldable pub admit_new : Config → ℤ → Server → World → Server × World
admit_new cfg fd s w =
    let (p, w1) = new_pair cfg fd (tune cfg fd w) in
    let (target_fd, w2) = connect_to_target cfg.target_ip w1 in
    let (q, w3) =
      set_connection_state (record p { target_fd = target_fd }) connected none
        (tune cfg target_fd w2) in
    let i = s.pool.connection_count in
    if is_neg target_fd
    then (put_pair i p s, after (close fd) w2)
    else (count_new (put_pair i q s), w3)

unfoldable pub admit_reused : Config → ℤ → ℕ → Pair → Server → World → Server × World
admit_reused cfg fd i p s w =
    let (q, w1) = reset_connection_for_reuse (record p { client_fd = fd }) (tune cfg fd w) in
    (put_pair i q s, w1)

-- The search is made only if fast reconnection is on.
abbrev pub reusable : Config → Pool → Option (ℕ × Pair)
reusable cfg t =
    if is_set cfg.enable_fast_reconnect
    then find_reusable t.connection_count t.connections
    else none

unfoldable pub admit_at : Config → ℤ → Option (ℕ × Pair) → Server → World → Server × World
admit_at cfg fd (some (i, p)) s w = admit_reused cfg fd i p s w
admit_at cfg fd none s w =
    if ltb_ℤ (pos s.pool.connection_count) cfg.max_clients
    then admit_new cfg fd s w
    else (s, after (close fd) w)

abbrev pub admit : Config → ℤ → Server → World → Server × World
admit cfg fd s w = admit_at cfg fd (reusable cfg s.pool) s w

unfoldable pub accept_client : Config → ℤ → Server → World → Server × World
accept_client cfg listen_fd s w =
    let fd = (reply (accept listen_fd) w).ret in
    let w1 = after (accept listen_fd) w in if is_neg fd then (s, w1) else admit cfg fd s w1
