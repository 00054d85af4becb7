-- ===== src/Forwarder/Server/Serving/Follow.antt =====
-- One turn of the serving loop of `main`: what it leaves in the table.
use remote_trans.Base.{
  ℕ, suc, ◌+◌, ◌<◌, ◌≡◌, refl, sym, ap, ap₂, ◌∙◌, true, false, some, List, [], ◌∷◌, ◌++◌, pos,
  arith, length, take, drop, get_elem?, if◌then◌else◌, if_cases, append-nil, length-take,
  take-append_all, drop-append_all, take-append_past, drop-append_past,
}
use remote_trans.World.{World}
use remote_trans.Forwarder.Types.{Pair, Pool}
use remote_trans.Forwarder.Pool.{close_pair, cleanup_connection}
use remote_trans.Forwarder.Pool.Removal.{live, IsPool, cleanup_removes}
use remote_trans.Forwarder.Server.{put_at}
use remote_trans.Forwarder.Server.Slots.{
  length-put_at, get_elem?-put_at, take-put_at, cleanup_world,
}
use remote_trans.Forwarder.Server.Serving.{Turn, Place, place, end_turn}

-- The world after a turn: a broken pair has been closed.
abbrev pub world_after : Turn → World
world_after a = if a.broken then (close_pair a.pair a.world).1 else a.world

-- What stays of a pair in front of those that follow it.
abbrev pub keep : Turn → List Pair → List Pair
keep a ps = if a.broken then ps else a.pair ∷ ps

-- The pairs before the index, after one more turn, and those still to come.
pub record Follows (i : ℕ) (t : Pool) (a : Turn) (s : Place) : Type 0 where
  pub pool : IsPool s.pool
  pub size : length s.pool.connections ≡ length t.connections
  pub before : take s.index (live s.pool) ≡ take i (live t) ++ keep a []
  pub after : drop s.index (live s.pool) ≡ drop (suc i) (live t)
  pub world : s.world ≡ world_after a
  pub count : s.pool.connection_count + suc i ≡ t.connection_count + s.index

module _ (i : ℕ) (t : Pool) (a : Turn) (v : IsPool t) (h : i < t.connection_count) where
  abbrev assigned : Pool
  assigned = record t { connections = put_at i a.pair t.connections }

  front : List Pair
  front = take i (live t)

  length-front : i ≡ length (take i (live t))
  length-front =
      omega (arith, length-take {0} i (live t), length-take {0} t.connection_count t.connections)

  assigned-live : live assigned ≡ take i (live t) ++ a.pair ∷ drop (suc i) (live t)
  assigned-live = take-put_at i t.connection_count a.pair t.connections h v

  assigned-IsPool : IsPool assigned
  assigned-IsPool = omega (arith, length-put_at i a.pair t.connections)

  kept-Follows : a.broken ≡ false → Follows i t a (place (suc i) assigned a.world)
  kept-Follows e = record {
    pool = assigned-IsPool;
    size = length-put_at i a.pair t.connections;
    before =
        ap (take (suc i)) assigned-live
        ∙ take-append_past (take i (live t)) _ (suc i) 1 (omega (arith, length-front))
        ∙ rw e refl;
    after =
        ap (drop (suc i)) assigned-live
        ∙ drop-append_past (take i (live t)) _ (suc i) 1 (omega (arith, length-front));
    world = rw e refl;
    count = refl;
  }

  assigned-get : get_elem? assigned.connections i ≡ some a.pair
  assigned-get = get_elem?-put_at i a.pair t.connections (omega arith)

  abbrev left : Pool
  left = (cleanup_connection (pos i) assigned a.world).0

  left-live : live left ≡ take i (live t) ++ drop (suc i) (live t)
  left-live =
      (cleanup_removes i assigned a.world assigned-IsPool h).0
      ∙ ap₂ ◌++◌ (ap (take i) assigned-live ∙ take-append_all (take i (live t)) _ i length-front) (
          ap (drop (suc i)) assigned-live
          ∙ drop-append_past (take i (live t)) _ (suc i) 1 (omega (arith, length-front)))

  left-Follows :
      a.broken ≡ true → Follows i t a (place i left (cleanup_connection (pos i) assigned a.world).1)
  left-Follows e =
      let removed = cleanup_removes i assigned a.world assigned-IsPool h in
      record {
        pool = omega (arith, removed.1, removed.2, assigned-IsPool);
        size = removed.2 ∙ length-put_at i a.pair t.connections;
        before =
            ap (take i) left-live
            ∙ take-append_all (take i (live t)) _ i length-front
            ∙ sym (append-nil (take i (live t)))
            ∙ rw e refl;
        after = ap (drop i) left-live ∙ drop-append_all (take i (live t)) _ i length-front;
        world = cleanup_world i assigned a.world h assigned-get ∙ rw e refl;
        count = omega (arith, removed.1);
      }

  pub end_turn-Follows : Follows i t a (end_turn i t a)
  unfolding end_turn
  end_turn-Follows =
      if_cases (Follows i t a) a.broken
        (place i left (cleanup_connection (pos i) assigned a.world).1)
        (place (suc i) assigned a.world) left-Follows kept-Follows
