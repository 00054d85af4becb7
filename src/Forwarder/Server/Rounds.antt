-- ===== src/Forwarder/Server/Rounds.antt =====
-- rdp_forwarder.c: a round of the main loop, and `main` from its first call to its return.
use remote_trans.Base.{ℕ, zero, suc, Bool, Option, none, some, List, ℤ, pos, is_neg, if◌then◌else◌}
use remote_trans.World.{World, reply, after, malloc, select, close}
use remote_trans.Transport.Socket.{ht_init, ht_cleanup}
use remote_trans.Forwarder.Types.{Pair, Pool}
use remote_trans.Forwarder.Pool.{cleanup_connection}
use remote_trans.Forwarder.Server.{Env, Server, init_stats, report_stats, create_listen_socket}
use remote_trans.Forwarder.Server.Watching.{reconnect_pass, watched, fd_set, is_ready}
use remote_trans.Forwarder.Server.Admission.{accept_client}
use remote_trans.Forwarder.Server.Serving.{serve_pairs}

pub record Running : Type 0 where
  pub server : Server
  pub world : World

abbrev pub at : Server → World → Running
at s w = record { server = s; world = w }

-- The part of a round in front of `select`.
unfoldable pub prepare : Env → Server → World → Running
prepare env s w =
    let (s1, w1) = report_stats env.config s w in
    let (t, w2) = reconnect_pass env.config s1.pool w1 in at (record s1 { pool = t }) w2

-- The part behind it: a new client, then the pairs.
unfoldable pub attend : Env → ℤ → (ℤ → Bool) → Server → World → Option Running
attend env listen_fd ready s w =
    let (s1, w1) = if ready listen_fd then accept_client env.config listen_fd s w else (s, w) in
    elim (serve_pairs env ready s1.pool w1) [
      | none ↦ none
      | some a ↦ some (at (record s1 { pool = a.pool }) a.world)
    ]

unfoldable pub round : Env → ℤ → Running → Option Running
round env listen_fd x =
    let y = prepare env x.server x.world in
    let asked = watched listen_fd y.server.pool in
    let w = fd_set asked y.world in
    let r = reply (select asked) w in
    let w1 = after (select asked) w in
    if is_neg r.ret
    then some (at y.server w1)
    else attend env listen_fd (is_ready asked r.bytes) y.server w1

-- `while (running)`: a signal ends the loop after some number of rounds.
unfoldable pub rounds : Env → ℤ → ℕ → Running → Option Running
rounds env listen_fd zero x = some x
rounds env listen_fd (suc n) x = elim (round env listen_fd x) [
  | none ↦ none
  | some y ↦ rounds env listen_fd n y
]

-- `for (i = connection_count - 1; i >= 0; i--)`
unfoldable pub cleanup_all : ℕ → Pool → World → Pool × World
cleanup_all zero t w = (t, w)
cleanup_all (suc n) t w = let (u, w1) = cleanup_connection (pos n) t w in cleanup_all n u w1

unfoldable pub shut_down : ℤ → Server → World → Pool × World
shut_down listen_fd s w =
    let (t, w1) = cleanup_all s.pool.connection_count s.pool w in
    (t, ht_cleanup (after (close listen_fd) w1))

-- `main` up to its loop, with the configuration already read: the listening descriptor and the
-- globals, or `none` where it exits. `memory` is the table as `malloc` has found it.
unfoldable pub start : List Pair → World → Option (ℤ × Running)
start memory w =
    let (r, w1) = ht_init w in
    let (st, w2) = init_stats (after malloc w1) in
    let (fd, w3) = create_listen_socket w2 in
    if is_neg r
    then none
    else if is_neg (reply malloc w1).ret
    then none
    else if is_neg fd
    then none
    else some (
      fd,
      at (record { pool = record { connections = memory; connection_count = 0 }; stats = st }) w3,
    )

-- The rest of `main` with a number of rounds until the signal.
unfoldable pub run : Env → ℕ → ℤ → Running → Option (Pool × World)
run env n listen_fd x = elim (rounds env listen_fd n x) [
  | none ↦ none
  | some y ↦ some (shut_down listen_fd y.server y.world)
]
