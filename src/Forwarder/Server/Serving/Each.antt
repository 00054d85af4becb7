-- ===== src/Forwarder/Server/Serving/Each.antt =====
-- The serving loop of `main`, with its index and the shifts of the table, against the list of the
-- pairs in use.
use remote_trans.Base.{
  ℕ, zero, suc, ◌+◌, ◌<◌, ◌≡◌, refl, sym, ap, ap₂, ◌∙◌, Bool, Option, none, some, List, [], ◌∷◌,
  ◌++◌, ℤ, arith, take, drop, get_elem?, Bool-cases, inl, inr, append-nil, append_assoc, take_all,
  drop_all, length-take,
}
use remote_trans.World.{World}
use remote_trans.Forwarder.Types.{Pair, Pool}
use remote_trans.Forwarder.Pool.Removal.{live, IsPool}
use remote_trans.Forwarder.Server.{Env}
use remote_trans.Forwarder.Server.Slots.{get_elem?-take, drop-get_elem?, get_elem?-within}
use remote_trans.Forwarder.Server.Serving.Follow.{world_after, keep, Follows, end_turn-Follows}
use remote_trans.Forwarder.Server.Serving.{
  Turn, Place, place, pair_turn, end_turn, serve_from, serve_pairs,
}

abbrev pub over_list :
    (List Pair → List Pair) → Option (List Pair × World) → Option (List Pair × World)
over_list f none = none
over_list f (some (ps, w)) = some (f ps, w)

-- The specification: each pair of a list has one turn, in order; a broken pair is closed and left
-- out.
abbrev pub serve_each : Env → (ℤ → Bool) → List Pair → World → Option (List Pair × World)
serve_each env ready [] w = some ([], w)
serve_each env ready (p ∷ ps) w = elim (pair_turn env ready p w) [
  | none ↦ none
  | some a ↦ over_list (keep a) (serve_each env ready ps (world_after a))
]

-- What the specification sees of a result.
abbrev pub seen : Option Place → Option (List Pair × World)
seen none = none
seen (some s) = some (live s.pool, s.world)

over_list-nothing : (r : Option (List Pair × World)) → over_list (◌++◌ []) r ≡ r
over_list-nothing none = refl
over_list-nothing (some (ps, w)) = refl

over_list-keep :
    (a : Turn) (xs : List Pair) (r : Option (List Pair × World))
    → over_list (◌++◌ (xs ++ keep a [])) r ≡ over_list (◌++◌ xs) (over_list (keep a) r)
over_list-keep a xs none = refl
over_list-keep a xs (some (ps, w)) = elim (Bool-cases a.broken) [
  | inl e ↦ rw e (ap (λ ys. some (ys ++ ps, w)) (append-nil xs))
  | inr e ↦ rw e (ap (λ ys. some (ys, w)) (append_assoc xs (a.pair ∷ []) ps))
]

-- What is left to prove of a place, and one turn of it.
module _ (env : Env) (ready : ℤ → Bool) where
  Serves : ℕ → Place → Type 0
  Serves n s =
      seen (serve_from env ready n s)
      ≡ over_list (◌++◌ (take s.index (live s.pool)))
          (serve_each env ready (drop s.index (live s.pool)) s.world)

  module _ (n : ℕ) (s : Place) (p : Pair) (v : IsPool s.pool)
      (h : s.index < s.pool.connection_count)
      (e : get_elem? s.pool.connections s.index ≡ some p) where
    next : drop s.index (live s.pool) ≡ p ∷ drop (suc s.index) (live s.pool)
    next =
        drop-get_elem? s.index (live s.pool)
          (get_elem?-take s.index s.pool.connection_count s.pool.connections h ∙ e)

    abbrev after_turn : Option Turn → Option Place
    after_turn none = none
    after_turn (some a) = serve_from env ready n (end_turn s.index s.pool a)

    abbrev each_after : Option Turn → Option (List Pair × World)
    each_after none = none
    each_after (some a) =
        over_list (keep a) (serve_each env ready (drop (suc s.index) (live s.pool)) (world_after a))

    loop_turn :
        (o : Option Turn)
        → pair_turn env ready p s.world ≡ o
        → serve_from env ready (suc n) s ≡ after_turn o
    unfolding serve_from
    loop_turn none eo = ground (arith, e, eo)
    loop_turn (some a) eo = ground (arith, e, eo)

    each_turn :
        (o : Option Turn)
        → pair_turn env ready p s.world ≡ o
        → serve_each env ready (drop s.index (live s.pool)) s.world ≡ each_after o
    each_turn none eo = ground (arith, next, eo)
    each_turn (some a) eo = ground (arith, next, eo)

    turn-Serves :
        (o : Option Turn)
        → pair_turn env ready p s.world ≡ o
        → ((a : Turn) → Serves n (end_turn s.index s.pool a))
        → Serves (suc n) s
    unfolding Serves
    turn-Serves none eo ih =
        ap seen (loop_turn none eo)
        ∙ sym (ap (over_list (◌++◌ (take s.index (live s.pool)))) (each_turn none eo))
    turn-Serves (some a) eo ih =
        ap seen (loop_turn (some a) eo)
        ∙ ih a
        ∙ follow (end_turn-Follows s.index s.pool a v h)
        ∙ over_list-keep a (take s.index (live s.pool)) _
        ∙ sym (ap (over_list (◌++◌ (take s.index (live s.pool)))) (each_turn (some a) eo))
      where
        follow :
            {r : Place}
            → Follows s.index s.pool a r
            → over_list
                (◌++◌ (take r.index (live r.pool)))
                (serve_each env ready (drop r.index (live r.pool)) r.world)
              ≡ over_list
                  (◌++◌ (take s.index (live s.pool) ++ keep a []))
                  (serve_each env ready (drop (suc s.index) (live s.pool)) (world_after a))
        follow f = simp (f.before, f.after, f.world)

serve_from-each :
    (env : Env) (ready : ℤ → Bool) (n : ℕ) (s : Place)
    → IsPool s.pool
    → s.index + n ≡ s.pool.connection_count
    → Serves env ready n s
unfolding serve_from Serves
serve_from-each env ready zero s v h = sym (
    ap₂ (λ xs ys. over_list (◌++◌ xs) (serve_each env ready ys s.world))
      (take_all s.index (live s.pool)
        (omega (arith, length-take {0} s.pool.connection_count s.pool.connections)))
      (drop_all s.index (live s.pool)
        (omega (arith, length-take {0} s.pool.connection_count s.pool.connections)))
    ∙ ap (λ ys. some (ys, s.world)) (append-nil (live s.pool)))
serve_from-each env ready (suc n) s v h =
    turn-Serves env ready n s found.0 v (omega arith) found.1 _ refl (λ a.
      let f = end_turn-Follows s.index s.pool a v (omega arith) in
      serve_from-each env ready n (end_turn s.index s.pool a) f.pool (omega (arith, f.count)))
  where
    found : (p : Pair) × (get_elem? s.pool.connections s.index ≡ some p)
    found = get_elem?-within s.index s.pool.connections (omega arith)

-- The serving loop gives each pair in use one turn, in order. The pairs then in use are those whose
-- turn did not break them, as the turns left them, and the system is the one that the turns and the
-- closing of the broken pairs leave; the loop lacks a result just if one of the turns does. The
-- count of pairs in use must fit the table.
pub serve_pairs_each :
    (env : Env) (ready : ℤ → Bool) (t : Pool) (w : World)
    → IsPool t
    → seen (serve_pairs env ready t w) ≡ serve_each env ready (live t) w
unfolding serve_pairs Serves
serve_pairs_each env ready t w v =
    serve_from-each env ready t.connection_count (place 0 t w) v (omega arith)
    ∙ over_list-nothing (serve_each env ready (live t) w)
