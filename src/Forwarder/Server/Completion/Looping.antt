-- ===== src/Forwarder/Server/Completion/Looping.antt =====
-- The main loop returns from each of its rounds.
use remote_trans.Base.{
  ℕ, zero, suc, ◌≡◌, refl, ap, ◌∙◌, Bool, Option, none, some, List, ℤ, pos_part, arith, is_neg,
  length, if◌then◌else◌, if_cases, Bool-cases, inl, inr, subst, All,
}
use remote_trans.World.{World, Reply, reply, after, select}
use remote_trans.Transport.Types.{tcp_only}
use remote_trans.Transport.Socket.{ht_init}
use remote_trans.Forwarder.Types.{Pair, Pool}
use remote_trans.Forwarder.Pool.Removal.{live}
use remote_trans.Forwarder.Wiring.{IsPair}
use remote_trans.Forwarder.Server.{Env, Server, init_stats, create_listen_socket}
use remote_trans.Forwarder.Server.Watching.{watched, fd_set, is_ready}
use remote_trans.Forwarder.Server.Admission.{accept_client}
use remote_trans.Forwarder.Server.Serving.{Place, serve_pairs}
use remote_trans.Forwarder.Server.Serving.Each.{seen, serve_pairs_each}
use remote_trans.Forwarder.Server.Rounds.{
  Running, at, prepare, attend, round, rounds, start, shut_down, run,
}
use remote_trans.Forwarder.Server.Invariant.{IsTable}
use remote_trans.Forwarder.Server.Invariant.Admitting.{accept_client-IsTable}
use remote_trans.Forwarder.Server.Invariant.Whole.{Ok, prepare-IsTable, round-Ok, start-IsTable}
use remote_trans.Forwarder.Server.Scripts.Setup.{
  reconnect_pass-script, report_stats-script, fd_set-script, accept_client-script,
}
use remote_trans.Forwarder.Server.Completion.{Flows, Flows-script, serve_each-ends}

seen-some :
    (o : Option Place) {r : List Pair × World}
    → seen o ≡ some r
    → (a : Place) × (o ≡ some a) × (a.world ≡ r.1)
seen-some none h = cc
seen-some (some a) {r} h = (a, refl, cc h)

-- A result that is there, after which no answer has changed.
record Goes (w : World) (o : Option Running) : Type 0 where
  end : Running
  returns : o ≡ some end
  script : end.world.script ≡ w.script

module _ (env : Env) (mode : env.config.transport_mode ≡ tcp_only) where
  serve_pairs-ends :
      (ready : ℤ → Bool) (t : Pool) (w : World)
      → IsTable env.config t
      → Flows env.fuel w.script
      → (a : Place) × (serve_pairs env ready t w ≡ some a) × (a.world.script ≡ w.script)
  serve_pairs-ends ready t w k v =
      let done =
        serve_each-ends env ready (live t) w (subst (λ m. All (IsPair m) (live t)) mode k.pairs)
          v in
      let a =
        seen-some (serve_pairs env ready t w) (serve_pairs_each env ready t w k.room ∙ done.1) in
      (a.0, a.1, ap (λ (u : World). u.script) a.2 ∙ done.2)

  module _ (listen_fd : ℤ) where
    attend-Goes :
        (ready : ℤ → Bool) (s : Server) (w : World)
        → IsTable env.config s.pool
        → Flows env.fuel w.script
        → Goes w (attend env listen_fd ready s w)
    unfolding attend
    attend-Goes ready s w k v = record {
      end = at (record met.0 { pool = done.0.pool }) done.0.world;
      returns = ground (arith, done.1);
      script = done.2 ∙ same;
    }
      where
        met : Server × World
        met = if ready listen_fd then accept_client env.config listen_fd s w else (s, w)

        same : met.1.script ≡ w.script
        same = ground (arith, accept_client-script env.config listen_fd s w)

        well : IsTable env.config met.0.pool
        well =
            if_cases (λ (x : Server × World). IsTable env.config x.0.pool) (ready listen_fd)
              (accept_client env.config listen_fd s w) (s, w)
              (λ e. accept_client-IsTable env.config s k listen_fd w) (λ e. k)

        done :
            (a : Place) × (serve_pairs env ready met.0.pool met.1 ≡ some a)
            × (a.world.script ≡ met.1.script)
        done = serve_pairs-ends ready met.0.pool met.1 well (Flows-script env.fuel w met.1 same v)

    prepare-script : (s : Server) (w : World) → (prepare env s w).world.script ≡ w.script
    unfolding prepare
    prepare-script s w =
        reconnect_pass-script env.config _ _ mode ∙ report_stats-script env.config s w

    round-Goes :
        (x : Running)
        → IsTable env.config x.server.pool
        → Flows env.fuel x.world.script
        → Goes x.world (round env listen_fd x)
    unfolding round after
    round-Goes x k v = elim (Bool-cases (is_neg r.ret)) [
      | inl e ↦ record { end = at y.server w1; returns = ground (arith, e); script = same }
      | inr e ↦ record {
        end = rest.end;
        returns = ground (arith, e, rest.returns);
        script = rest.script ∙ same;
      }
    ]
      where
        y : Running
        y = prepare env x.server x.world

        asked : List ℤ
        asked = watched listen_fd y.server.pool

        r : Reply
        r = reply (select asked) (fd_set asked y.world)

        w1 : World
        w1 = after (select asked) (fd_set asked y.world)

        same : w1.script ≡ x.world.script
        same = fd_set-script asked y.world ∙ prepare-script x.server x.world

        rest : Goes w1 (attend env listen_fd (is_ready asked r.bytes) y.server w1)
        rest =
            attend-Goes (is_ready asked r.bytes) y.server w1
              (prepare-IsTable env x.server x.world k) (Flows-script env.fuel x.world w1 same v)

    rounds-end :
        (n : ℕ) (x : Running)
        → IsTable env.config x.server.pool
        → Flows env.fuel x.world.script
        → (y : Running) × (rounds env listen_fd n x ≡ some y)
    unfolding rounds
    rounds-end zero x k v = (x, refl)
    rounds-end (suc n) x k v =
        let one = round-Goes x k v in
        let rest =
          rounds-end n one.end (subst (Ok env) one.returns (round-Ok env listen_fd x k))
            (Flows-script env.fuel x.world one.end.world one.script v) in
        (rest.0, ground (arith, one.returns, rest.1))

start-script :
    (memory : List Pair) (w : World) {fd : ℤ} {x : Running}
    → start memory w ≡ some (fd, x)
    → x.world.script ≡ w.script
unfolding start ht_init init_stats create_listen_socket after
start-script memory w {fd} {x} h = ground (arith, h)

-- In the mode TCP only, if each system call returns (`select` has no limit of its own on the time that
-- it waits), `main` gets through any number of rounds and to its end: none of its writing loops runs
-- on, if each `send` takes a byte at least and each `recv` brings fewer bytes than the fuel of these
-- loops. The table is what `malloc` has found for the configured number of clients.
pub run_ends :
    (env : Env) (memory : List Pair) (w : World) (n : ℕ) {fd : ℤ} {x : Running}
    → env.config.transport_mode ≡ tcp_only
    → length memory ≡ pos_part env.config.max_clients
    → Flows env.fuel w.script
    → start memory w ≡ some (fd, x)
    → (r : Pool × World) × (run env n fd x ≡ some r)
unfolding run
run_ends env memory w n {fd} {x} mode size v h =
    let done =
      rounds-end env mode fd n x (start-IsTable env.config memory w {x = x} size h)
        (Flows-script env.fuel w x.world (start-script memory w {x = x} h) v) in
    (shut_down fd done.0.server done.0.world, ground (arith, done.1))
