-- ===== src/Forwarder/Server/Completion.antt =====
-- The end of the rounds of the main loop, in the mode TCP only.
pub mod Looping
use remote_trans.Base.{
  ℕ, zero, suc, ◌<◌, ◌≡◌, ◌≢◌, refl, sym, ap, ◌∙◌, Bool, true, false, not, ◌&&◌, ◌||◌, Option, none,
  some, List, [], ◌∷◌, ℤ, negsuc, pos_part, arith, is_neg, is_pos, is_set, eqb_ℤ, length,
  if◌then◌else◌, if_cases, Bool-cases, Option-cases, inl, inr, subst, All,
}
use remote_trans.World.{World, Call, Reply, reply, after, malloc, recv, send, select, time}
use remote_trans.Transport.Types.{Mode, tcp_only}
use remote_trans.Forwarder.Types.{Pair, Pool, Config, Served}
use remote_trans.Forwarder.State.{handle_client_disconnect}
use remote_trans.Forwarder.Pool.{close_pair}
use remote_trans.Forwarder.Pool.Removal.{live}
use remote_trans.Forwarder.Data.{forward_data}
use remote_trans.Forwarder.Data.Completion.{Takes, forward_data_ends}
use remote_trans.Forwarder.Wiring.{IsPair}
use remote_trans.Forwarder.Server.{Env, Server}
use remote_trans.Forwarder.Server.Serving.{
  Turn, Place, turn, judged, judge, judge_client, client_turn, target_turn, tcp_turn, timed_out,
  pair_turn, serve_pairs,
}
use remote_trans.Forwarder.Server.Serving.Follow.{keep, world_after}
use remote_trans.Forwarder.Server.Serving.Each.{over_list, serve_each, seen, serve_pairs_each}
use remote_trans.Forwarder.Server.Scripts.{
  forward_data-script, close_pair-script, handle_client_disconnect-script,
}

-- The answers of the system: each `send` takes a byte at least, and each `recv` brings fewer bytes
-- than the fuel.
pub record Flows (fuel : ℕ) (f : ℕ → Call → Reply) : Type 0 where
  pub takes : (n : ℕ) (fd : ℤ) (bs : List ℕ) → is_pos (f n (send fd bs)).ret ≡ true
  pub brings : (n : ℕ) (fd : ℤ) → pos_part (f n (recv fd)).ret < fuel

pub Flows-script :
    (fuel : ℕ) (w u : World) → u.script ≡ w.script → Flows fuel w.script → Flows fuel u.script
Flows-script fuel w u e v = subst (Flows fuel) (sym e) v

-- A turn that returns, and changes no answer.
record Ends (w : World) (o : Option Turn) : Type 0 where
  end : Turn
  returns : o ≡ some end
  script : end.world.script ≡ w.script

module _ (env : Env) (ready : ℤ → Bool) where
  sent-end :
      (from_fd to_fd : ℤ) (dir : Bool) (p : Pair) (w : World)
      → Flows env.fuel w.script
      → (s : Served) × (forward_data env.fuel env.config from_fd to_fd dir env.reason p w ≡ some s)
        × (s.world.script ≡ w.script)
  unfolding after
  sent-end from_fd to_fd dir p w v =
      let done =
        forward_data_ends env.fuel env.config from_fd to_fd dir env.reason p w
          (λ n bs. v.takes n to_fd bs) bounded in
      (
        done.0,
        done.1,
        forward_data-script env.fuel env.config from_fd to_fd dir env.reason p w {s = done.0}
            done.1,
      )
    where
      bounded : pos_part (reply (recv from_fd) (after malloc w)).ret < env.fuel
      bounded = v.brings (after malloc w).tick from_fd

  judge_client-script : (s : Served) → (judge_client env.config s).world.script ≡ s.world.script
  unfolding judge_client
  judge_client-script s = ground (arith, handle_client_disconnect-script env.config s.pair s.world)

  client_turn-Ends :
      (p : Pair) (w : World) → Flows env.fuel w.script → Ends w (client_turn env ready p w)
  unfolding client_turn
  client_turn-Ends p w v = elim (Bool-cases (is_pos p.client_fd && ready p.client_fd)) [
    | inl e ↦ record {
      end = judge_client env.config s.0;
      returns = ground (arith, e, s.1);
      script = judge_client-script s.0 ∙ s.2;
    }
    | inr e ↦ record { end = turn false false p w; returns = ground (arith, e); script = refl }
  ]
    where
      s :
          (s : Served) × (forward_data env.fuel env.config p.client_fd p.target_fd true env.reason p
              w
            ≡ some s)
          × (s.world.script ≡ w.script)
      s = sent-end p.client_fd p.target_fd true p w v

  target_turn-Ends :
      (w : World) (a : Turn)
      → Flows env.fuel w.script
      → a.world.script ≡ w.script
      → Ends w (target_turn env ready a)
  unfolding target_turn
  target_turn-Ends w a v e = elim (Bool-cases idle) [
    | inl f ↦ record { end = a; returns = ground (arith, f); script = e }
    | inr f ↦ record { end = judged s.0; returns = ground (arith, f, s.1); script = s.2 ∙ e }
  ]
    where
      idle : Bool
      idle = a.over || a.broken || not (is_pos a.pair.target_fd && ready a.pair.target_fd)

      s :
          (s : Served) × (forward_data env.fuel env.config a.pair.target_fd a.pair.client_fd false
              env.reason a.pair a.world
            ≡ some s)
          × (s.world.script ≡ a.world.script)
      s =
          sent-end a.pair.target_fd a.pair.client_fd false a.pair a.world
            (Flows-script env.fuel w a.world e v)

  tcp_turn-Ends : (p : Pair) (w : World) → Flows env.fuel w.script → Ends w (tcp_turn env ready p w)
  unfolding tcp_turn
  tcp_turn-Ends p w v = record {
    end = second.end;
    returns = ground (arith, first.returns, second.returns);
    script = second.script;
  }
    where
      first : Ends w (client_turn env ready p w)
      first = client_turn-Ends p w v

      second : Ends w (target_turn env ready first.end)
      second = target_turn-Ends w first.end v first.script

  unused : (p : Pair) → IsPair tcp_only p → p.use_hybrid_transport ≡ false
  unused p v = elim (Bool-cases p.use_hybrid_transport) [
    | inl e ↦ absurd (cc (v.used e, v.plain refl))
    | inr e ↦ e
  ]

  pair_turn-Ends :
      (p : Pair) (w : World)
      → IsPair tcp_only p
      → Flows env.fuel w.script
      → Ends w (pair_turn env ready p w)
  unfolding pair_turn after
  pair_turn-Ends p w k v = elim (Bool-cases late) [
    | inl e ↦ record {
      end = turn true true p (after time w);
      returns = ground (arith, k.active, e);
      script = refl;
    }
    | inr e ↦ record {
      end = rest.end;
      returns = ground (arith, k.active, e, unused p k, rest.returns);
      script = rest.script;
    }
  ]
    where
      late : Bool
      late = timed_out env.config p (reply time w).time.sec

      rest : Ends (after time w) (tcp_turn env ready p (after time w))
      rest = tcp_turn-Ends p (after time w) v

  world_after-script : (a : Turn) → (world_after a).script ≡ a.world.script
  world_after-script a = ground (arith, close_pair-script a.pair a.world)

  pub serve_each-ends :
      (ps : List Pair) (w : World)
      → All (IsPair tcp_only) ps
      → Flows env.fuel w.script
      → (r : List Pair × World) × (serve_each env ready ps w ≡ some r) × (r.1.script ≡ w.script)
  serve_each-ends [] w k v = (([], w), refl, refl)
  serve_each-ends (p ∷ ps) w k v =
      let t = pair_turn-Ends p w k.0 v in
      let same = world_after-script t.end ∙ t.script in
      let rest =
        serve_each-ends ps (world_after t.end) k.1
          (Flows-script env.fuel w (world_after t.end) same v) in
      ((keep t.end rest.0.0, rest.0.1), ground (arith, t.returns, rest.1), rest.2 ∙ same)
