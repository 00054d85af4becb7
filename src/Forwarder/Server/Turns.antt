-- ===== src/Forwarder/Server/Turns.antt =====
-- A pair over its turn in the serving loop of `main`, and the list of pairs over a whole loop.
use remote_trans.Base.{
  ℕ, ◌≡◌, refl, sym, inl, inr, Bool, true, false, not, ◌&&◌, ◌||◌, Option, none, some, List, [],
  ◌∷◌, ℤ, negsuc, is_pos, is_set, eqb_ℤ, if_cases, Bool-cases, subst, All,
}
use remote_trans.World.{World, time, reply}
use remote_trans.Transport.Types.{Mode}
use remote_trans.Forwarder.Types.{Pair, Config, Served}
use remote_trans.Forwarder.State.{handle_client_disconnect}
use remote_trans.Forwarder.Data.{forward_data}
use remote_trans.Forwarder.Hybrid.{forward_data_hybrid}
use remote_trans.Forwarder.Hybrid.Wired.{forward_data_hybrid-IsPair}
use remote_trans.Forwarder.Wiring.{IsWired, IsPair}
use remote_trans.Forwarder.Wiring.Frame.{forward_data-wiring, handle_client_disconnect-IsPair}
use remote_trans.Forwarder.Server.{Env}
use remote_trans.Forwarder.Server.Serving.{
  Turn, turn, judged, judge, judge_client, client_turn, target_turn, tcp_turn, hybrid_client_turn,
  hybrid_target_turn, hybrid_turn, timed_out, pair_turn,
}
use remote_trans.Forwarder.Server.Serving.Follow.{keep, world_after}
use remote_trans.Forwarder.Server.Serving.Each.{over_list, serve_each}

-- The pair of a result, if there is one.
abbrev pub Ok : Mode → Option Turn → Type 0
Ok m none = Unit
Ok m (some a) = IsPair m a.pair

forward_data-IsPair :
    {m : Mode} (fuel : ℕ) (cfg : Config) (from_fd to_fd : ℤ) (dir : Bool) (reason : List ℕ)
    (p : Pair) (w : World) {s : Served}
    → IsPair m p
    → forward_data fuel cfg from_fd to_fd dir reason p w ≡ some s
    → IsPair m s.pair
forward_data-IsPair fuel cfg from_fd to_fd dir reason p w {s} v h =
    subst (IsWired _) (sym (forward_data-wiring fuel cfg from_fd to_fd dir reason p w {s = s} h)) v

judge-Ok :
    {m : Mode} (o : Option Served) → ((s : Served) → o ≡ some s → IsPair m s.pair) → Ok m (judge o)
judge-Ok none f = tt
judge-Ok (some s) f = f s refl

data_judged-Ok :
    {m : Mode} (fuel : ℕ) (cfg : Config) (from_fd to_fd : ℤ) (dir : Bool) (reason : List ℕ)
    (p : Pair) (w : World)
    → IsPair m p
    → Ok m (judge (forward_data fuel cfg from_fd to_fd dir reason p w))
data_judged-Ok fuel cfg from_fd to_fd dir reason p w v =
    judge-Ok (forward_data fuel cfg from_fd to_fd dir reason p w)
      (λ s h. forward_data-IsPair fuel cfg from_fd to_fd dir reason p w {s = s} v h)

hybrid_judged-Ok :
    {m : Mode} (env : Env) (dir : Bool) (p : Pair) (w : World)
    → IsPair m p
    → Ok m (judge (forward_data_hybrid env.floats env.fuel env.buf dir env.reason p w))
hybrid_judged-Ok env dir p w v =
    judge-Ok (forward_data_hybrid env.floats env.fuel env.buf dir env.reason p w)
      (λ s h. forward_data_hybrid-IsPair env.floats env.fuel env.buf dir env.reason p w {s = s} v h)

judge_client-IsPair :
    {m : Mode} (cfg : Config) (s : Served) → IsPair m s.pair → IsPair m (judge_client cfg s).pair
unfolding judge_client
judge_client-IsPair {m} cfg s v =
    if_cases (λ (a : Turn). IsPair m a.pair)
      (eqb_ℤ s.value (negsuc 1) && is_set cfg.enable_fast_reconnect)
      (turn true false (handle_client_disconnect cfg s.pair s.world).0
        (handle_client_disconnect cfg s.pair s.world).1)
      (judged s) (λ e. handle_client_disconnect-IsPair cfg s.pair s.world v) (λ e. v)

module _ {m : Mode} (env : Env) (ready : ℤ → Bool) where
  client_forwarded :
      (o : Option Served)
      → ((s : Served) → o ≡ some s → IsPair m s.pair)
      → Ok m (elim o [ none ↦ none | some s ↦ some (judge_client env.config s) ])
  client_forwarded none f = tt
  client_forwarded (some s) f = judge_client-IsPair env.config s (f s refl)

  client_turn-Ok : (p : Pair) (w : World) → IsPair m p → Ok m (client_turn env ready p w)
  unfolding client_turn
  client_turn-Ok p w v =
      if_cases (Ok m) (is_pos p.client_fd && ready p.client_fd)
        (elim sent [ none ↦ none | some s ↦ some (judge_client env.config s) ])
        (some (turn false false p w))
        (λ e. client_forwarded sent (λ s h.
          forward_data-IsPair env.fuel env.config p.client_fd p.target_fd true env.reason p w
            {s = s} v h))
        (λ e. v)
    where
      sent : Option Served
      sent = forward_data env.fuel env.config p.client_fd p.target_fd true env.reason p w

  target_turn-Ok : (a : Turn) → IsPair m a.pair → Ok m (target_turn env ready a)
  unfolding target_turn
  target_turn-Ok a v =
      if_cases (Ok m)
        (a.over || a.broken || not (is_pos a.pair.target_fd && ready a.pair.target_fd)) (some a)
        (judge (
          forward_data env.fuel env.config a.pair.target_fd a.pair.client_fd false env.reason a.pair
            a.world))
        (λ e. v) (λ e. data_judged-Ok _ _ _ _ _ _ a.pair a.world v)

  tcp_turn-Ok : (p : Pair) (w : World) → IsPair m p → Ok m (tcp_turn env ready p w)
  unfolding tcp_turn
  tcp_turn-Ok p w v = chain _ (client_turn-Ok p w v)
    where
      chain :
          (o : Option Turn)
          → Ok m o
          → Ok m (elim o [ none ↦ none | some a ↦ target_turn env ready a ])
      chain none k = tt
      chain (some a) k = target_turn-Ok a k

  hybrid_client_turn-Ok :
      (p : Pair) (w : World) → IsPair m p → Ok m (hybrid_client_turn env ready p w)
  unfolding hybrid_client_turn
  hybrid_client_turn-Ok p w v =
      if_cases (Ok m) (is_pos p.client_fd && ready p.client_fd)
        (judge (forward_data_hybrid env.floats env.fuel env.buf true env.reason p w))
        (some (turn false false p w)) (λ e. hybrid_judged-Ok env true p w v) (λ e. v)

  hybrid_target_turn-Ok : (a : Turn) → IsPair m a.pair → Ok m (hybrid_target_turn env a)
  unfolding hybrid_target_turn
  hybrid_target_turn-Ok a v =
      if_cases (Ok m) a.broken (some a)
        (judge (forward_data_hybrid env.floats env.fuel env.buf false env.reason a.pair a.world))
        (λ e. v) (λ e. hybrid_judged-Ok env false a.pair a.world v)

  hybrid_turn-Ok : (p : Pair) (w : World) → IsPair m p → Ok m (hybrid_turn env ready p w)
  unfolding hybrid_turn
  hybrid_turn-Ok p w v = chain _ (hybrid_client_turn-Ok p w v)
    where
      chain :
          (o : Option Turn)
          → Ok m o
          → Ok m (elim o [ none ↦ none | some a ↦ hybrid_target_turn env a ])
      chain none k = tt
      chain (some a) k = hybrid_target_turn-Ok a k

  pub pair_turn-Ok : (p : Pair) (w : World) → IsPair m p → Ok m (pair_turn env ready p w)
  unfolding pair_turn
  pair_turn-Ok p w v =
      if_cases (Ok m) (not p.is_active) _ _ (λ e. v)
        (λ e.
          if_cases (Ok m) (timed_out env.config p (reply time w).time.sec) _ _ (λ f. v)
            (λ f.
              if_cases (Ok m) p.use_hybrid_transport _ _ (λ g. hybrid_turn-Ok p _ v)
                (λ g. tcp_turn-Ok p _ v)))

-- The list that a whole loop leaves.
abbrev pub AllPairs : Mode → Option (List Pair × World) → Type 0
AllPairs m none = Unit
AllPairs m (some (ps, w)) = All (IsPair m) ps

kept-AllPairs :
    {m : Mode} (a : Turn) (r : Option (List Pair × World))
    → IsPair m a.pair
    → AllPairs m r
    → AllPairs m (over_list (keep a) r)
kept-AllPairs a none v k = tt
kept-AllPairs a (some (ps, w)) v k = elim (Bool-cases a.broken) [
  | inl e ↦ rw e k
  | inr e ↦ rw e (v, k)
]

pub serve_each-AllPairs :
    (m : Mode) (env : Env) (ready : ℤ → Bool) (ps : List Pair) (w : World)
    → All (IsPair m) ps
    → AllPairs m (serve_each env ready ps w)
serve_each-AllPairs m env ready [] w v = tt
serve_each-AllPairs m env ready (p ∷ ps) w v =
    first _ (pair_turn-Ok env ready p w v.0) (λ u. serve_each-AllPairs m env ready ps u v.1)
  where
    first :
        (o : Option Turn)
        → Ok m o
        → ((u : World) → AllPairs m (serve_each env ready ps u))
        → AllPairs m (elim o [
          | none ↦ none
          | some a ↦ over_list (keep a) (serve_each env ready ps (world_after a))
        ])
    first none k ih = tt
    first (some a) k ih = kept-AllPairs a _ k (ih (world_after a))
