-- ===== src/Forwarder/Server/Ledger/Turning.antt =====
-- The descriptors over a pair's turn in the serving loop of `main`, in the mode TCP only.
use remote_trans.Base.{
  ℕ, suc, ◌≡◌, ◌≢◌, refl, ap, ◌∙◌, Bool, true, false, not, ◌&&◌, ◌||◌, Option, none, some, ℤ, pos,
  negsuc, arith, is_pos, is_set, eqb_ℤ, if_cases,
}
use remote_trans.World.{World, reply, after, time}
use remote_trans.Transport.Types.{tcp_only}
use remote_trans.Forwarder.Types.{Pair, Served}
use remote_trans.Forwarder.State.{handle_client_disconnect}
use remote_trans.Forwarder.Data.{forward_data}
use remote_trans.Forwarder.Wiring.{Wiring, wiring, IsPair}
use remote_trans.Forwarder.Wiring.Frame.{forward_data-wiring}
use remote_trans.Forwarder.Server.{Env}
use remote_trans.Forwarder.Server.Serving.{
  Turn, turn, judged, judge, judge_client, client_turn, target_turn, tcp_turn, timed_out, pair_turn,
}
use remote_trans.Forwarder.Server.Closing.{held}
use remote_trans.Descriptors.{Synced, Books-nothing, Books-quiet, Books-trans, Books-as}
use remote_trans.Forwarder.Server.Ledger.{Kept}
use remote_trans.Forwarder.Server.Ledger.Quiet.{Quiet, forward_data-Quiet}
use remote_trans.Forwarder.Server.Ledger.Closed.{handle_client_disconnect-Kept}

-- What is known of a turn, if it returns.
abbrev pub Settled : ℕ → Pair → World → Option Turn → Type 0
Settled n p w none = Unit
Settled n p w (some a) = Kept n p w a.pair a.world

-- Nothing is opened or closed, and the pair holds the same.
Quiet-Kept :
    (n : ℕ) (p q : Pair) (w u : World) → wiring q ≡ wiring p → Quiet (suc n) w u → Kept n p w q u
Quiet-Kept n p q w u e b = ground (arith, e, b)

module _ (n : ℕ) (env : Env) (ready : ℤ → Bool) where
  forward_data-Kept :
      (from_fd to_fd : ℤ) (dir : Bool) (p : Pair) (w : World) {s : Served}
      → Synced w
      → forward_data env.fuel env.config from_fd to_fd dir env.reason p w ≡ some s
      → Kept n p w s.pair s.world
  forward_data-Kept from_fd to_fd dir p w {s} v h =
      Quiet-Kept n p s.pair w s.world
        (forward_data-wiring env.fuel env.config from_fd to_fd dir env.reason p w {s = s} h)
        (forward_data-Quiet (suc n) env.fuel env.config from_fd to_fd dir env.reason p w {s = s} v
          h)

  judge-Settled :
      (p : Pair) (w : World) (o : Option Served)
      → ((s : Served) → o ≡ some s → Kept n p w s.pair s.world)
      → Settled n p w (judge o)
  judge-Settled p w none f = tt
  judge-Settled p w (some s) f = f s refl

  judge_client-Kept :
      (p : Pair) (w : World) (s : Served)
      → s.pair.ht_conn ≡ none
      → Kept n p w s.pair s.world
      → let a = judge_client env.config s in Kept n p w a.pair a.world
  unfolding judge_client
  judge_client-Kept p w s e b =
      if_cases (λ (a : Turn). Kept n p w a.pair a.world)
        (eqb_ℤ s.value (negsuc 1) && is_set env.config.enable_fast_reconnect)
        (turn true false (handle_client_disconnect env.config s.pair s.world).0
          (handle_client_disconnect env.config s.pair s.world).1)
        (judged s)
        (λ f.
          Books-trans (suc n) w s.world _ _ _ _ b
            (handle_client_disconnect-Kept n env.config s.pair s.world e b.synced))
        (λ f. b)

  client_forwarded :
      (p : Pair) (w : World) (o : Option Served)
      → ((s : Served) → o ≡ some s → (s.pair.ht_conn ≡ none) × Kept n p w s.pair s.world)
      → Settled n p w (elim o [ none ↦ none | some s ↦ some (judge_client env.config s) ])
  client_forwarded p w none f = tt
  client_forwarded p w (some s) f = judge_client-Kept p w s (f s refl).0 (f s refl).1

  client_turn-Settled :
      (p : Pair) (w : World)
      → p.ht_conn ≡ none
      → Synced w
      → Settled n p w (client_turn env ready p w)
  unfolding client_turn
  client_turn-Settled p w e v =
      if_cases (Settled n p w) (is_pos p.client_fd && ready p.client_fd)
        (elim sent [ none ↦ none | some s ↦ some (judge_client env.config s) ])
        (some (turn false false p w))
        (λ f. client_forwarded p w sent (λ s h. (
          ap (λ (x : Wiring). x.ht_conn)
                (forward_data-wiring env.fuel env.config p.client_fd p.target_fd true env.reason p w
                  {s = s} h)
              ∙ e,
          forward_data-Kept p.client_fd p.target_fd true p w {s = s} v h,
        )))
        (λ f. Books-nothing (suc n) w _ v)
    where
      sent : Option Served
      sent = forward_data env.fuel env.config p.client_fd p.target_fd true env.reason p w

  target_turn-Settled :
      (p : Pair) (w : World) (a : Turn)
      → Kept n p w a.pair a.world
      → Settled n p w (target_turn env ready a)
  unfolding target_turn
  target_turn-Settled p w a b =
      if_cases (Settled n p w)
        (a.over || a.broken || not (is_pos a.pair.target_fd && ready a.pair.target_fd)) (some a)
        (judge sent) (λ f. b)
        (λ f. judge-Settled p w sent (λ s h. Books-trans (suc n) w a.world s.world _ _ _ b (
          forward_data-Kept a.pair.target_fd a.pair.client_fd false a.pair a.world {s = s} b.synced
            h)))
    where
      sent : Option Served
      sent =
          forward_data env.fuel env.config a.pair.target_fd a.pair.client_fd false env.reason a.pair
            a.world

  tcp_turn-Settled :
      (p : Pair) (w : World) → p.ht_conn ≡ none → Synced w → Settled n p w (tcp_turn env ready p w)
  unfolding tcp_turn
  tcp_turn-Settled p w e v = chain _ (client_turn-Settled p w e v)
    where
      chain :
          (o : Option Turn)
          → Settled n p w o
          → Settled n p w (elim o [ none ↦ none | some a ↦ target_turn env ready a ])
      chain none k = tt
      chain (some a) k = target_turn-Settled p w a k

  -- A call before the turn.
  pub later :
      (p : Pair) (w u : World) (o : Option Turn)
      → Quiet (suc n) w u
      → Settled n p u o
      → Settled n p w o
  later p w u none b k = tt
  later p w u (some a) b k =
      let h = held (pos (suc n)) p in
      Books-trans (suc n) w u a.world h h _ (Books-as (suc n) w u 0 0 h h (omega arith) b) k

  pub pair_turn-Settled :
      (p : Pair) (w : World)
      → IsPair tcp_only p
      → Synced w
      → Settled n p w (pair_turn env ready p w)
  unfolding pair_turn
  pair_turn-Settled p w c v =
      if_cases (Settled n p w) (not p.is_active) _ _ (λ e. Books-nothing (suc n) w _ v)
        (λ e. later p w (after time w) _ b (
          if_cases (Settled n p (after time w)) (timed_out env.config p (reply time w).time.sec) _ _
            (λ f. Books-nothing (suc n) (after time w) _ b.synced)
            (λ f.
              if_cases (Settled n p (after time w)) p.use_hybrid_transport _ _
                (λ g. absurd (plain g))
                (λ g. tcp_turn-Settled p (after time w) (c.plain refl) b.synced))))
    where
      b : Quiet (suc n) w (after time w)
      b = Books-quiet (suc n) time w v refl refl

      plain : p.use_hybrid_transport ≢ true
      plain g = ground (arith, g, c)
