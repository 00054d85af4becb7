-- ===== src/Forwarder/Server/Serving/Table.antt =====
-- The size of the table and the count of pairs in use over the serving loop of `main`.
use remote_trans.Base.{
  ℕ, zero, suc, ◌+◌, ◌≤◌, ◌<◌, ◌≡◌, refl, ◌∙◌, Bool, Option, none, some, ℤ, arith, length,
  get_elem?, subst,
}
use remote_trans.World.{World}
use remote_trans.Forwarder.Types.{Pair, Pool}
use remote_trans.Forwarder.Pool.Removal.{IsPool}
use remote_trans.Forwarder.Server.{Env}
use remote_trans.Forwarder.Server.Slots.{get_elem?-within}
use remote_trans.Forwarder.Server.Serving.{
  Turn, Place, place, pair_turn, end_turn, serve_from, serve_pairs,
}
use remote_trans.Forwarder.Server.Serving.Follow.{Follows, end_turn-Follows}

-- The table keeps its size, and no pair is added.
pub record Shrinks (t u : Pool) : Type 0 where
  pub pool : IsPool u
  pub size : length u.connections ≡ length t.connections
  pub count : u.connection_count ≤ t.connection_count

Shrinks-self : (t : Pool) → IsPool t → Shrinks t t
Shrinks-self t v = record { pool = v; size = refl; count = omega arith }

Shrinks-turn :
    (i : ℕ) (t : Pool) (a : Turn) (s : Place) (u : Pool)
    → Follows i t a s
    → s.index ≤ suc i
    → Shrinks s.pool u
    → Shrinks t u
Shrinks-turn i t a s u f h r = record {
  pool = r.pool;
  size = r.size ∙ f.size;
  count = omega (arith, f.count, r.count);
}

end_turn-index : (i : ℕ) (t : Pool) (a : Turn) → (end_turn i t a).index ≤ suc i
unfolding end_turn
end_turn-index i t a = ground arith

-- The rest of the loop is given.
module _ (env : Env) (ready : ℤ → Bool) (n : ℕ) (s r : Place) (v : IsPool s.pool)
    (h : s.index < s.pool.connection_count) where
  turn-Shrinks :
      (p : Pair) (o : Option Turn)
      → get_elem? s.pool.connections s.index ≡ some p
      → pair_turn env ready p s.world ≡ o
      → ((a : Turn)
          → serve_from env ready n (end_turn s.index s.pool a) ≡ some r
          → Shrinks (end_turn s.index s.pool a).pool r.pool)
      → serve_from env ready (suc n) s ≡ some r
      → Shrinks s.pool r.pool
  unfolding serve_from
  turn-Shrinks p none e eo ih q = ground (arith, e, eo, q)
  turn-Shrinks p (some a) e eo ih q =
      Shrinks-turn s.index s.pool a _ r.pool (end_turn-Follows s.index s.pool a v h)
        (end_turn-index s.index s.pool a) (ih a (ground (arith, e, eo, q)))

serve_from-Shrinks :
    (env : Env) (ready : ℤ → Bool) (n : ℕ) (s r : Place)
    → IsPool s.pool
    → s.index + n ≡ s.pool.connection_count
    → serve_from env ready n s ≡ some r
    → Shrinks s.pool r.pool
unfolding serve_from
serve_from-Shrinks env ready zero s r v h q =
    subst (λ (x : Place). Shrinks s.pool x.pool) {x = s} {y = r} (cc q) (Shrinks-self s.pool v)
serve_from-Shrinks env ready (suc n) s r v h q =
    let found = get_elem?-within s.index s.pool.connections (omega arith) in
    turn-Shrinks env ready n s r v (omega arith) found.0 _ found.1 refl
      (λ a e.
        let f = end_turn-Follows s.index s.pool a v (omega arith) in
        serve_from-Shrinks env ready n (end_turn s.index s.pool a) r f.pool (omega (arith, f.count))
          e)
      q

pub serve_pairs-Shrinks :
    (env : Env) (ready : ℤ → Bool) (t : Pool) (w : World) (r : Place)
    → IsPool t
    → serve_pairs env ready t w ≡ some r
    → Shrinks t r.pool
unfolding serve_pairs
serve_pairs-Shrinks env ready t w r v q =
    serve_from-Shrinks env ready t.connection_count (place 0 t w) r v (omega arith) q
