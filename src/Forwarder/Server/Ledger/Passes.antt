-- ===== src/Forwarder/Server/Ledger/Passes.antt =====
-- The descriptors over the two loops on the table, in the mode TCP only.
use remote_trans.Base.{
  ℕ, zero, suc, ◌≡◌, refl, sym, ap, ◌∙◌, Bool, not, ◌&&◌, Option, none, some, List, [], ◌∷◌, ℤ, pos,
  arith, is_set, if_cases, if◌then◌else◌, subst, All, take, sub_ℕ, ltb_ℤ, tdiv,
}
use remote_trans.World.{World, reply, after, time}
use remote_trans.Transport.Types.{tcp_only}
use remote_trans.Forwarder.Types.{Pair, Pool, Config, Served}
use remote_trans.Forwarder.Pool.Removal.{live, IsPool}
use remote_trans.Forwarder.Reconnect.{try_reconnect_target}
use remote_trans.Forwarder.Wiring.{IsPair}
use remote_trans.Forwarder.Server.{Env}
use remote_trans.Forwarder.Server.Watching.{revive, revive_all, reconnect_pass}
use remote_trans.Forwarder.Server.Serving.{Turn, Place, serve_pairs}
use remote_trans.Forwarder.Server.Serving.Follow.{keep, world_after}
use remote_trans.Forwarder.Server.Serving.Each.{over_list, serve_each, seen, serve_pairs_each}
use remote_trans.Forwarder.Server.Turns.{Ok, pair_turn-Ok}
use remote_trans.Forwarder.Server.Closing.{held, held_by_all}
use remote_trans.Descriptors.{
  Synced, Books, Books-nothing, Books-quiet, Books-then, Books-trans, Books-as,
}
use remote_trans.Forwarder.Server.Ledger.{Kept}
use remote_trans.Forwarder.Server.Ledger.Reconnecting.{try_reconnect_target-Books}
use remote_trans.Forwarder.Server.Ledger.Closed.{close_pair-Books}
use remote_trans.Forwarder.Server.Ledger.Turning.{Settled, pair_turn-Settled}

-- From the pairs `ps` to the pairs `qs`.
abbrev pub AllKept : ℕ → List Pair → World → List Pair → World → Type 0
AllKept n ps w qs u =
    Books (suc n) w (held_by_all (pos (suc n)) ps) u (held_by_all (pos (suc n)) qs)

module _ (n : ℕ) (cfg : Config) (m : cfg.transport_mode ≡ tcp_only) where
  revive-Kept :
      (p : Pair) (w : World)
      → IsPair tcp_only p
      → Synced w
      → let (q, u) = revive cfg p w in Kept n p w q u
  unfolding revive
  revive-Kept p w c v =
      if_cases Good (not (p.client_disconnected && not p.target_ready)) (p, w)
        (if early then (p, after time w) else (s.pair, s.world)) (λ e. Books-nothing (suc n) w _ v)
        (λ e.
          if_cases Good early (p, after time w) (s.pair, s.world)
            (λ f. Books-as (suc n) w (after time w) 0 0 _ _ (omega arith) b)
            (λ f.
              Books-trans (suc n) w (after time w) s.world h h _
                (Books-as (suc n) w (after time w) 0 0 h h (omega arith) b)
                (try_reconnect_target-Books n cfg p (after time w) m c b.synced)))
    where
      h : ℕ
      h = held (pos (suc n)) p

      Good : Pair × World → Type 0
      Good x = Kept n p w x.0 x.1

      b : Books (suc n) w 0 (after time w) 0
      b = Books-quiet (suc n) time w v refl refl

      s : Served
      s = try_reconnect_target cfg p (after time w)

      early : Bool
      early =
          ltb_ℤ (sub_ℕ (reply time w).time.sec p.disconnect_time) (tdiv cfg.reconnect_delay 1000)

  revive_all-Kept :
      (k : ℕ) (ps : List Pair) (w : World)
      → All (IsPair tcp_only) (take k ps)
      → Synced w
      → let (qs, u) = revive_all cfg k ps w in AllKept n (take k ps) w (take k qs) u
  unfolding revive_all
  revive_all-Kept zero ps w c v = Books-nothing (suc n) w _ v
  revive_all-Kept (suc k) [] w c v = Books-nothing (suc n) w _ v
  revive_all-Kept (suc k) (p ∷ ps) w c v =
      let b = revive-Kept p w c.0 v in
      Books-then (suc n) w (revive cfg p w).1 _ _ _ _ _ b
        (revive_all-Kept k ps (revive cfg p w).1 c.1 b.synced)

  pub reconnect_pass-Kept :
      (t : Pool) (w : World)
      → All (IsPair tcp_only) (live t)
      → Synced w
      → let (u, w1) = reconnect_pass cfg t w in AllKept n (live t) w (live u) w1
  unfolding reconnect_pass
  reconnect_pass-Kept t w c v =
      if_cases (λ (x : Pool × World). AllKept n (live t) w (live x.0) x.1)
        (is_set cfg.enable_fast_reconnect)
        (
          record t { connections = (revive_all cfg t.connection_count t.connections w).0 },
          (revive_all cfg t.connection_count t.connections w).1,
        )
        (t, w) (λ e. revive_all-Kept t.connection_count t.connections w c v)
        (λ e. Books-nothing (suc n) w _ v)

-- The pairs that a whole loop leaves.
abbrev AllSettled : ℕ → List Pair → World → Option (List Pair × World) → Type 0
AllSettled n ps w none = Unit
AllSettled n ps w (some (qs, u)) = AllKept n ps w qs u

module _ (n : ℕ) (env : Env) (ready : ℤ → Bool) where
  world_after-Books :
      (p : Pair) (w : World) (a : Turn)
      → Kept n p w a.pair a.world
      → a.pair.ht_conn ≡ none
      → Books
          (suc n)
          w
          (held (pos (suc n)) p)
          (world_after a)
          (held_by_all (pos (suc n)) (keep a []))
  world_after-Books p w a b e = ground (
    arith,
    b,
    Books-trans (suc n) w a.world _ _ _ _ b (close_pair-Books n a.pair a.world e b.synced),
  )

  kept-AllSettled :
      (p : Pair) (ps : List Pair) (w : World) (a : Turn) (r : Option (List Pair × World))
      → Books
          (suc n)
          w
          (held (pos (suc n)) p)
          (world_after a)
          (held_by_all (pos (suc n)) (keep a []))
      → AllSettled n ps (world_after a) r
      → AllSettled n (p ∷ ps) w (over_list (keep a) r)
  kept-AllSettled p ps w a none b k = tt
  kept-AllSettled p ps w a (some (qs, u)) b k =
      Books-as (suc n) w u _ _ _ _ (ground arith)
        (Books-then (suc n) w (world_after a) u _ _ _ _ b k)

  turn-AllSettled :
      (p : Pair) (ps : List Pair) (w : World) (o : Option Turn)
      → Settled n p w o
      → Ok tcp_only o
      → ((u : World) → Synced u → AllSettled n ps u (serve_each env ready ps u))
      → AllSettled n (p ∷ ps) w (elim o [
        | none ↦ none
        | some a ↦ over_list (keep a) (serve_each env ready ps (world_after a))
      ])
  turn-AllSettled p ps w none b c ih = tt
  turn-AllSettled p ps w (some a) b c ih =
      let stage = world_after-Books p w a b (c.plain refl) in
      kept-AllSettled p ps w a _ stage (ih (world_after a) stage.synced)

  serve_each-AllSettled :
      (ps : List Pair) (w : World)
      → All (IsPair tcp_only) ps
      → Synced w
      → AllSettled n ps w (serve_each env ready ps w)
  serve_each-AllSettled [] w c v = Books-nothing (suc n) w _ v
  serve_each-AllSettled (p ∷ ps) w c v =
      turn-AllSettled p ps w _ (pair_turn-Settled n env ready p w c.0 v)
        (pair_turn-Ok env ready p w c.0) (λ u s. serve_each-AllSettled ps u c.1 s)

  pub serve_pairs-Kept :
      (t : Pool) (w : World) (r : Place)
      → IsPool t
      → All (IsPair tcp_only) (live t)
      → Synced w
      → serve_pairs env ready t w ≡ some r
      → AllKept n (live t) w (live r.pool) r.world
  serve_pairs-Kept t w r i c v h =
      subst (AllSettled n (live t) w) (sym (serve_pairs_each env ready t w i) ∙ ap seen h)
        (serve_each-AllSettled (live t) w c v)
