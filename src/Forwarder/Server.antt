-- ===== src/Forwarder/Server.antt =====
-- rdp_forwarder.c: the global state of the forwarder, `create_listen_socket` and the statistics.
pub mod Ledger
pub mod Slots
pub mod Watching
pub mod Admission
pub mod Serving
pub mod Rounds
pub mod Turns
pub mod Closing
pub mod Scripts
pub mod Completion
pub mod Invariant
use remote_trans.Base.{
  ℕ, zero, suc, Bool, true, false, not, ◌&&◌, Option, none, some, List, [], ◌∷◌, ℤ, pos, minus_one,
  is_neg, is_set, sub_ℕ, ltb_ℤ, if◌then◌else◌,
}
use remote_trans.Floats.{Floats}
use remote_trans.World.{World, reply, after, time, socket_stream, setsockopt, bind, listen, close}
use remote_trans.Forwarder.Types.{Pair, Pool, Config}
use remote_trans.Forwarder.Pool.{Totals, update_stats}

-- What does not change while the forwarder runs: the configuration, the arithmetic of `float`, the
-- fuel of the loops without a limit, the memory that a local packet finds, and the text of the error
-- messages.
pub record Env : Type 0 where
  pub config : Config
  pub floats : Floats
  pub fuel : ℕ
  pub buf : List ℕ
  pub reason : List ℕ

-- `stats_t`
pub record Statistics : Type 0 where
  pub total_connections : ℕ
  pub totals : Totals
  pub start_time : ℕ
  pub last_stats_time : ℕ

-- The globals that change.
pub record Server : Type 0 where
  pub pool : Pool
  pub stats : Statistics

abbrev pub no_totals : Totals
no_totals = record { active_connections = 0; total_bytes_sent = 0; total_bytes_received = 0 }

unfoldable pub init_stats : World → Statistics × World
init_stats w =
    let now = (reply time w).time.sec in
    (
      record { total_connections = 0; totals = no_totals; start_time = now; last_stats_time = now },
      after time w,
    )

-- Without the lines that it prints.
unfoldable pub print_stats : Server → World → Server × World
print_stats s w = (
  record s {
    stats = record s.stats {
      totals = update_stats s.pool;
      last_stats_time = (reply time w).time.sec;
    };
  },
  after time w,
)

-- The first lines of the main loop.
unfoldable pub report_stats : Config → Server → World → Server × World
report_stats cfg s w =
    let elapsed = sub_ℕ (reply time w).time.sec s.stats.last_stats_time in
    if not (is_set cfg.enable_stats)
    then (s, w)
    else if ltb_ℤ elapsed cfg.stats_interval
    then (s, after time w)
    else print_stats s (after time w)

-- The descriptor, or -1 with the socket closed. The port is part of the address.
unfoldable pub create_listen_socket : World → ℤ × World
create_listen_socket w =
    let fd = (reply socket_stream w).ret in
    let w1 = after socket_stream w in
    let w2 = after (setsockopt fd) w1 in
    let w3 = after (bind fd) w2 in
    let w4 = after (listen fd) w3 in
    if is_neg fd
    then (minus_one, w1)
    else if is_neg (reply (bind fd) w2).ret
    then (minus_one, after (close fd) w3)
    else if is_neg (reply (listen fd) w3).ret
    then (minus_one, after (close fd) w4)
    else (fd, w4)

-- An assignment to the pair at an index. The index is within the table wherever it is used.
abbrev pub put_at : ℕ → Pair → List Pair → List Pair
put_at i p [] = []
put_at zero p (q ∷ qs) = p ∷ qs
put_at (suc i) p (q ∷ qs) = q ∷ put_at i p qs
