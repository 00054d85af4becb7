-- ===== src/Forwarder/Server/Invariant.antt =====
-- The well-formedness of the forwarder's globals: the table has the configured size, the count fits
-- it, and the pairs in use are well formed.
pub mod Admitting
pub mod Whole
use remote_trans.Base.{
  ℕ, zero, suc, ◌+◌, ◌≤◌, ◌<◌, ◌≡◌, refl, sym, ap, ◌∙◌, Bool, true, false, not, ◌&&◌, Option, none,
  some, List, [], ◌∷◌, ℤ, pos_part, arith, length, take, is_set, if◌then◌else◌, if_cases,
  Bool-cases, inl, inr, subst, All, sub_ℕ, ltb_ℤ, tdiv,
}
use remote_trans.World.{World, after, time, reply}
use remote_trans.Forwarder.Types.{Pair, Pool, Config, Served}
use remote_trans.Forwarder.Pool.Removal.{live, IsPool}
use remote_trans.Forwarder.Reconnect.{try_reconnect_target}
use remote_trans.Forwarder.Wiring.{IsPair}
use remote_trans.Forwarder.Wiring.Reconnecting.{try_reconnect_target-IsPair}
use remote_trans.Forwarder.Server.{Env, Server, print_stats, report_stats}
use remote_trans.Forwarder.Server.Watching.{revive, revive_all, reconnect_pass}
use remote_trans.Forwarder.Server.Serving.{Place, serve_pairs}
use remote_trans.Forwarder.Server.Serving.Each.{seen, serve_pairs_each, serve_each}
use remote_trans.Forwarder.Server.Serving.Table.{Shrinks, serve_pairs-Shrinks}
use remote_trans.Forwarder.Server.Turns.{AllPairs, serve_each-AllPairs}

pub record IsTable (cfg : Config) (t : Pool) : Type 0 where
  pub size : length t.connections ≡ pos_part cfg.max_clients
  pub room : IsPool t
  pub pairs : All (IsPair cfg.transport_mode) (live t)

pub report_stats-pool :
    (cfg : Config) (s : Server) (w : World) → (report_stats cfg s w).0.pool ≡ s.pool
unfolding report_stats print_stats
report_stats-pool cfg s w = ground arith

revive-IsPair :
    (cfg : Config) (p : Pair) (w : World)
    → IsPair cfg.transport_mode p
    → IsPair cfg.transport_mode (revive cfg p w).0
unfolding revive
revive-IsPair cfg p w v =
    if_cases Good (not (p.client_disconnected && not p.target_ready)) (p, w)
      (if early then (p, after time w) else (s.pair, s.world)) (λ e. v)
      (λ e.
        if_cases Good early (p, after time w) (s.pair, s.world) (λ f. v)
          (λ f. try_reconnect_target-IsPair cfg p (after time w) v))
  where
    Good : Pair × World → Type 0
    Good x = IsPair cfg.transport_mode x.0

    s : Served
    s = try_reconnect_target cfg p (after time w)

    early : Bool
    early = ltb_ℤ (sub_ℕ (reply time w).time.sec p.disconnect_time) (tdiv cfg.reconnect_delay 1000)

length-revive_all :
    (cfg : Config) (n : ℕ) (ps : List Pair) (w : World)
    → length (revive_all cfg n ps w).0 ≡ length ps
unfolding revive_all
length-revive_all cfg zero ps w = refl
length-revive_all cfg (suc n) [] w = refl
length-revive_all cfg (suc n) (p ∷ ps) w = ap suc (length-revive_all cfg n ps (revive cfg p w).1)

revive_all-pairs :
    (cfg : Config) (n : ℕ) (ps : List Pair) (w : World)
    → All (IsPair cfg.transport_mode) (take n ps)
    → All (IsPair cfg.transport_mode) (take n (revive_all cfg n ps w).0)
unfolding revive_all
revive_all-pairs cfg zero ps w v = tt
revive_all-pairs cfg (suc n) [] w v = tt
revive_all-pairs cfg (suc n) (p ∷ ps) w v =
    (revive-IsPair cfg p w v.0, revive_all-pairs cfg n ps (revive cfg p w).1 v.1)

pub reconnect_pass-IsTable :
    (cfg : Config) (t : Pool) (w : World) → IsTable cfg t → IsTable cfg (reconnect_pass cfg t w).0
unfolding reconnect_pass
reconnect_pass-IsTable cfg t w v =
    let same = length-revive_all cfg t.connection_count t.connections w in
    if_cases (λ (x : Pool × World). IsTable cfg x.0) (is_set cfg.enable_fast_reconnect)
      (
        record t { connections = (revive_all cfg t.connection_count t.connections w).0 },
        (revive_all cfg t.connection_count t.connections w).1,
      )
      (t, w)
      (λ e. record {
        size = same ∙ v.size;
        room = omega (arith, same, v.room);
        pairs = revive_all-pairs cfg t.connection_count t.connections w v.pairs;
      })
      (λ e. v)

-- The serving loop, by its specification.
pub serve_pairs-IsTable :
    (env : Env) (ready : ℤ → Bool) (t : Pool) (w : World) (r : Place)
    → IsTable env.config t
    → serve_pairs env ready t w ≡ some r
    → IsTable env.config r.pool
serve_pairs-IsTable env ready t w r v h = record {
  size = shrunk.size ∙ v.size;
  room = shrunk.pool;
  pairs = left;
}
  where
    shrunk : Shrinks t r.pool
    shrunk = serve_pairs-Shrinks env ready t w r v.room h

    each : serve_each env ready (live t) w ≡ some (live r.pool, r.world)
    each = sym (serve_pairs_each env ready t w v.room) ∙ ap seen h

    left : All (IsPair env.config.transport_mode) (live r.pool)
    left =
        subst (AllPairs env.config.transport_mode) each
          (serve_each-AllPairs env.config.transport_mode env ready (live t) w v.pairs)
