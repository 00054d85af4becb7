-- ===== src/Forwarder/Server/Ledger/Whole.antt =====
-- The descriptors over a whole run of `main`, in the mode TCP only.
use remote_trans.Base.{
  ℕ, zero, suc, ◌+◌, ◌≡◌, refl, sym, ap, Bool, Option, none, some, List, [], ℤ, pos, pos_part,
  arith, is_neg, length, if◌then◌else◌, if_cases, subst, All,
}
use remote_trans.World.{World, Reply, reply, after, select}
use remote_trans.Transport.Types.{tcp_only}
use remote_trans.Forwarder.Types.{Pair, Pool}
use remote_trans.Forwarder.Pool.Removal.{live}
use remote_trans.Forwarder.Wiring.{IsPair}
use remote_trans.Forwarder.Server.{Env, Server, report_stats}
use remote_trans.Forwarder.Server.Watching.{watched, fd_set, is_ready, reconnect_pass}
use remote_trans.Forwarder.Server.Admission.{accept_client}
use remote_trans.Forwarder.Server.Serving.{Place, serve_pairs}
use remote_trans.Forwarder.Server.Rounds.{
  Running, at, prepare, attend, round, rounds, start, shut_down, run,
}
use remote_trans.Forwarder.Server.Invariant.{IsTable, report_stats-pool}
use remote_trans.Forwarder.Server.Invariant.Admitting.{accept_client-IsTable}
use remote_trans.Forwarder.Server.Invariant.Whole.{
  Ok, prepare-IsTable, round-Ok, rounds-Ok, start-IsTable,
}
use remote_trans.Forwarder.Server.Closing.{held_by_all}
use remote_trans.Descriptors.{
  one, opened, closed, opened-nothing, Synced, Books, Books-nothing, Books-quiet, Books-trans,
  Books-as,
}
use remote_trans.Forwarder.Server.Ledger.Quiet.{Quiet}
use remote_trans.Forwarder.Server.Ledger.Setting.{report_stats-Quiet, fd_set-Quiet, Quiet-then}
use remote_trans.Forwarder.Server.Ledger.Passes.{AllKept, reconnect_pass-Kept, serve_pairs-Kept}
use remote_trans.Forwarder.Server.Ledger.Admitting.{accept_client-Books}
use remote_trans.Forwarder.Server.Ledger.Ending.{start-Books, shut_down-Books}

module _ (n : ℕ) (env : Env) (mode : env.config.transport_mode ≡ tcp_only) where
  plain : (t : Pool) → IsTable env.config t → All (IsPair tcp_only) (live t)
  plain t v = subst (λ m. All (IsPair m) (live t)) mode v.pairs

  -- What a round leaves, if it returns.
  abbrev Ends : Server → World → Option Running → Type 0
  Ends s w none = Unit
  Ends s w (some y) = AllKept n (live s.pool) w (live y.server.pool) y.world

  prepare-Ends :
      (s : Server) (w : World)
      → IsTable env.config s.pool
      → Synced w
      → Ends s w (some (prepare env s w))
  unfolding prepare
  prepare-Ends s w v k = Quiet-then (suc n) w w1 _ _ _ b (
      subst (λ (t : Pool). AllKept n (live t) w1 (live pass.0) pass.1) same
        (reconnect_pass-Kept n env.config mode t w1
          (subst (λ (t : Pool). All (IsPair tcp_only) (live t)) (sym same) (plain s.pool v))
          b.synced))
    where
      t : Pool
      t = (report_stats env.config s w).0.pool

      w1 : World
      w1 = (report_stats env.config s w).1

      same : t ≡ s.pool
      same = report_stats-pool env.config s w

      pass : Pool × World
      pass = reconnect_pass env.config t w1

      b : Quiet (suc n) w w1
      b = report_stats-Quiet (suc n) env.config s w k

  served-Ends :
      (s t : Server) (w : World) (o : Option Place)
      → ((a : Place) → o ≡ some a → AllKept n (live s.pool) w (live a.pool) a.world)
      → Ends s w (elim o [ none ↦ none | some a ↦ some (at (record t { pool = a.pool }) a.world) ])
  served-Ends s t w none f = tt
  served-Ends s t w (some a) f = f a refl

  module _ (listen_fd : ℤ) where
    attend-Ends :
        (ready : ℤ → Bool) (s : Server) (w : World)
        → IsTable env.config s.pool
        → Synced w
        → Ends s w (attend env listen_fd ready s w)
    unfolding attend
    attend-Ends ready s w v k =
        served-Ends s met.0 w (serve_pairs env ready met.0.pool met.1) (λ a e.
          Books-trans (suc n) w met.1 a.world _ _ _ b (
            serve_pairs-Kept n env ready met.0.pool met.1 a well.room (plain met.0.pool well)
              b.synced e))
      where
        met : Server × World
        met = if ready listen_fd then accept_client env.config listen_fd s w else (s, w)

        well : IsTable env.config met.0.pool
        well =
            if_cases (λ (x : Server × World). IsTable env.config x.0.pool) (ready listen_fd)
              (accept_client env.config listen_fd s w) (s, w)
              (λ e. accept_client-IsTable env.config s v listen_fd w) (λ e. v)

        b : AllKept n (live s.pool) w (live met.0.pool) met.1
        b =
            if_cases (λ (x : Server × World). AllKept n (live s.pool) w (live x.0.pool) x.1)
              (ready listen_fd) (accept_client env.config listen_fd s w) (s, w)
              (λ e. accept_client-Books n env.config s v listen_fd w k)
              (λ e. Books-nothing (suc n) w _ k)

    later-Ends :
        (s t : Server) (w u : World) (o : Option Running)
        → AllKept n (live s.pool) w (live t.pool) u
        → Ends t u o
        → Ends s w o
    later-Ends s t w u none b k = tt
    later-Ends s t w u (some y) b k = Books-trans (suc n) w u y.world _ _ _ b k

    round-Ends :
        (x : Running)
        → IsTable env.config x.server.pool
        → Synced x.world
        → Ends x.server x.world (round env listen_fd x)
    unfolding round
    round-Ends x v k = later-Ends x.server y.server x.world y.world _ first (
        later-Ends y.server y.server y.world w1 _
          (Quiet-then (suc n) y.world w1 w1 _ _ b (Books-nothing (suc n) w1 _ b.synced))
          (if_cases (Ends y.server w1) (is_neg r.ret) (some (at y.server w1))
            (attend env listen_fd (is_ready asked r.bytes) y.server w1)
            (λ e. Books-nothing (suc n) w1 _ b.synced)
            (λ e.
              attend-Ends (is_ready asked r.bytes) y.server w1
                (prepare-IsTable env x.server x.world v) b.synced)))
      where
        y : Running
        y = prepare env x.server x.world

        first : AllKept n (live x.server.pool) x.world (live y.server.pool) y.world
        first = prepare-Ends x.server x.world v k

        asked : List ℤ
        asked = watched listen_fd y.server.pool

        w0 : World
        w0 = fd_set asked y.world

        r : Reply
        r = reply (select asked) w0

        w1 : World
        w1 = after (select asked) w0

        b0 : Quiet (suc n) y.world w0
        b0 = fd_set-Quiet (suc n) asked y.world first.synced

        b : Quiet (suc n) y.world w1
        b =
            Books-trans (suc n) y.world w0 w1 0 0 0 b0
              (Books-quiet (suc n) (select asked) w0 b0.synced refl refl)

    rounds-Ends :
        (k : ℕ) (x : Running)
        → IsTable env.config x.server.pool
        → Synced x.world
        → Ends x.server x.world (rounds env listen_fd k x)
    unfolding rounds
    rounds-Ends zero x v s = Books-nothing (suc n) x.world _ s
    rounds-Ends (suc k) x v s =
        next (round env listen_fd x) (round-Ends x v s) (round-Ok env listen_fd x v)
          (λ y t s. rounds-Ends k y t s)
      where
        next :
            (o : Option Running)
            → Ends x.server x.world o
            → Ok env o
            → ((y : Running)
                → IsTable env.config y.server.pool
                → Synced y.world
                → Ends y.server y.world (rounds env listen_fd k y))
            → Ends x.server x.world (elim o [ none ↦ none | some y ↦ rounds env listen_fd k y ])
        next none b t ih = tt
        next (some y) b t ih = later-Ends x.server y.server x.world y.world _ b (ih y t b.synced)

  -- The end of `main` after its rounds.
  run-ended :
      (fd : ℤ) (x : Running) (w : World) (o : Option Running) {r : Pool × World}
      → Books (suc n) w 0 x.world (one (suc n) fd + held_by_all (pos (suc n)) (live x.server.pool))
      → Ends x.server x.world o
      → Ok env o
      → elim o [ none ↦ none | some y ↦ some (shut_down fd y.server y.world) ] ≡ some r
      → Books (suc n) w 0 r.1 0
  run-ended fd x w none b e t h = cc
  run-ended fd x w (some y) {r} b e t h =
      subst (λ (z : Pool × World). Books (suc n) w 0 z.1 0) {x = shut_down fd y.server y.world}
        {y = r} (cc h)
        (Books-trans (suc n) w x.world _ 0 (l + hx) 0 b (
          Books-trans (suc n) x.world y.world _ (l + hx) (hy + l) 0
            (Books-as (suc n) x.world y.world hx hy (l + hx) (hy + l) (omega arith) e)
            (shut_down-Books n fd y.server y.world t.room (plain y.server.pool t) e.synced)))
    where
      l : ℕ
      l = one (suc n) fd

      hx : ℕ
      hx = held_by_all (pos (suc n)) (live x.server.pool)

      hy : ℕ
      hy = held_by_all (pos (suc n)) (live y.server.pool)

-- In the mode TCP only, `main` closes each descriptor above 0 exactly as often as it has opened it, by
-- `accept` or by `socket`, whatever the system answers, for any number of rounds: when it has returned,
-- no descriptor has leaked, and none has been closed more often than it was opened. The table is what `malloc` has found for the
-- configured number of clients, and the run begins with no call made.
pub run_balances :
    (env : Env) (memory : List Pair) (w : World) (k n : ℕ) {fd : ℤ} {x : Running} {r : Pool × World}
    → env.config.transport_mode ≡ tcp_only
    → length memory ≡ pos_part env.config.max_clients
    → w.tick ≡ 0
    → w.calls ≡ []
    → start memory w ≡ some (fd, x)
    → run env k fd x ≡ some r
    → opened (suc n) r.1 ≡ closed (suc n) r.1
unfolding run
run_balances env memory w k n {fd} {x} {r} mode size tick calls begun h =
    let b = start-Books n memory w {fd = fd} {x = x} synced begun in
    let t = start-IsTable env.config memory w {x = x} size begun in
    let c =
      run-ended n env mode fd x w (rounds env fd k x) {r = r} b
        (rounds-Ends n env mode fd k x t b.synced) (rounds-Ok env fd k x t) h in
    omega (arith, c.balance, opened-nothing (suc n) w calls)
  where
    synced : Synced w
    synced = omega (arith, tick, ap length calls)
