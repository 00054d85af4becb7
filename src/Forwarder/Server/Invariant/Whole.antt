-- ===== src/Forwarder/Server/Invariant/Whole.antt =====
-- The globals over a round of the main loop, and over a whole run.
use remote_trans.Base.{
  ℕ, zero, suc, ◌≡◌, refl, sym, Bool, Option, none, some, List, ℤ, pos_part, arith, length, is_neg,
  if◌then◌else◌, if_cases, subst,
}
use remote_trans.World.{World, Reply, reply, after, select}
use remote_trans.Forwarder.Types.{Pair, Config}
use remote_trans.Forwarder.Server.{Env, Server, report_stats}
use remote_trans.Forwarder.Server.Watching.{watched, fd_set, is_ready}
use remote_trans.Forwarder.Server.Admission.{accept_client}
use remote_trans.Forwarder.Server.Serving.{Place, serve_pairs}
use remote_trans.Forwarder.Server.Rounds.{Running, at, prepare, attend, round, rounds, start}
use remote_trans.Forwarder.Server.Invariant.{
  IsTable, report_stats-pool, reconnect_pass-IsTable, serve_pairs-IsTable,
}
use remote_trans.Forwarder.Server.Invariant.Admitting.{accept_client-IsTable}

module _ (env : Env) where
  -- The globals of a result, if there is one.
  abbrev pub Ok : Option Running → Type 0
  Ok none = Unit
  Ok (some x) = IsTable env.config x.server.pool

  pub prepare-IsTable :
      (s : Server) (w : World)
      → IsTable env.config s.pool
      → IsTable env.config (prepare env s w).server.pool
  unfolding prepare
  prepare-IsTable s w v =
      reconnect_pass-IsTable env.config (report_stats env.config s w).0.pool _
        (subst (IsTable env.config) (sym (report_stats-pool env.config s w)) v)

  attended-Ok :
      (t : Server) (o : Option Place)
      → ((a : Place) → o ≡ some a → IsTable env.config a.pool)
      → Ok (elim o [ none ↦ none | some a ↦ some (at (record t { pool = a.pool }) a.world) ])
  attended-Ok t none f = tt
  attended-Ok t (some a) f = f a refl

  module _ (listen_fd : ℤ) where
    attend-Ok :
        (ready : ℤ → Bool) (s : Server) (w : World)
        → IsTable env.config s.pool
        → Ok (attend env listen_fd ready s w)
    unfolding attend
    attend-Ok ready s w v =
        attended-Ok met.0 (serve_pairs env ready met.0.pool met.1)
          (λ a e. serve_pairs-IsTable env ready met.0.pool met.1 a well e)
      where
        met : Server × World
        met = if ready listen_fd then accept_client env.config listen_fd s w else (s, w)

        well : IsTable env.config met.0.pool
        well =
            if_cases (λ (x : Server × World). IsTable env.config x.0.pool) (ready listen_fd)
              (accept_client env.config listen_fd s w) (s, w)
              (λ e. accept_client-IsTable env.config s v listen_fd w) (λ e. v)

    pub round-Ok : (x : Running) → IsTable env.config x.server.pool → Ok (round env listen_fd x)
    unfolding round
    round-Ok x v =
        if_cases Ok (is_neg r.ret) (some (at y.server w1))
          (attend env listen_fd (is_ready asked r.bytes) y.server w1) (λ e. prepared)
          (λ e. attend-Ok (is_ready asked r.bytes) y.server w1 prepared)
      where
        y : Running
        y = prepare env x.server x.world

        prepared : IsTable env.config y.server.pool
        prepared = prepare-IsTable x.server x.world v

        asked : List ℤ
        asked = watched listen_fd y.server.pool

        r : Reply
        r = reply (select asked) (fd_set asked y.world)

        w1 : World
        w1 = after (select asked) (fd_set asked y.world)

    pub rounds-Ok :
        (n : ℕ) (x : Running) → IsTable env.config x.server.pool → Ok (rounds env listen_fd n x)
    unfolding rounds
    rounds-Ok zero x v = v
    rounds-Ok (suc n) x v = next (round env listen_fd x) (round-Ok x v) (λ y k. rounds-Ok n y k)
      where
        next :
            (o : Option Running)
            → Ok o
            → ((y : Running) → IsTable env.config y.server.pool → Ok (rounds env listen_fd n y))
            → Ok (elim o [ none ↦ none | some y ↦ rounds env listen_fd n y ])
        next none k ih = tt
        next (some y) k ih = ih y k

pub start-IsTable :
    (cfg : Config) (memory : List Pair) (w : World) {fd : ℤ} {x : Running}
    → length memory ≡ pos_part cfg.max_clients
    → start memory w ≡ some (fd, x)
    → IsTable cfg x.server.pool
unfolding start
start-IsTable cfg memory w {fd} {x} size h =
    subst (IsTable cfg) begun (record { size = size; room = omega arith; pairs = tt })
  where
    begun : record { connections = memory; connection_count = 0 } ≡ x.server.pool
    begun = ground (arith, h)

-- Whatever the system answers, at the start of each round of the main loop the table has its
-- configured size and no more pairs are in use than it has places; each pair in use is active; its
-- hybrid connection, if it has one, is well formed, and is there if it is used; a pair whose client
-- has gone has no open client descriptor, and if its target is not ready either it has no open target
-- descriptor and no hybrid connection, so that a reconnection loses none. The table is what `malloc`
-- has found for the configured number of clients.
pub rounds-IsTable :
    (env : Env) (memory : List Pair) (w : World) (n : ℕ) {fd : ℤ} {x y : Running}
    → length memory ≡ pos_part env.config.max_clients
    → start memory w ≡ some (fd, x)
    → rounds env fd n x ≡ some y
    → IsTable env.config y.server.pool
rounds-IsTable env memory w n {fd} {x} size begun h =
    subst (Ok env) h (rounds-Ok env fd n x (start-IsTable env.config memory w {x = x} size begun))
