-- ===== src/Forwarder/Pool.antt =====
-- rdp_forwarder.c: the table of pairs, `cleanup_connection` and `update_stats`.
pub mod Removal
pub mod Sums
use remote_trans.Base.{
  ℕ, zero, suc, ◌+◌, ◌-◌, ◌%◌, ◌^◌, Bool, true, false, ◌||◌, not, Option, none, some, List, [], ◌∷◌,
  ◌++◌, ℤ, pos, pos_part, is_neg, ltb, if◌then◌else◌, take, drop,
}
use remote_trans.World.{World}
use remote_trans.Forwarder.Types.{Pair, Pool, closing}
use remote_trans.Forwarder.State.{set_connection_state, shut, close_positive, end_hybrid}

-- What `cleanup_connection` does to the pair itself.
unfoldable pub close_pair : Pair → World → Pair × World
close_pair p w =
    let (q, w1) = set_connection_state p closing none w in
    (
      record q {
        client_fd = shut q.client_fd;
        target_fd = shut q.target_fd;
        ht_conn = none;
        is_active = false;
        use_hybrid_transport = false;
      },
      end_hybrid q.ht_conn (close_positive q.target_fd (close_positive q.client_fd w1)),
    )

-- `connections[i] = connections[i + 1]`, `n` times from the head on.
abbrev pub move_down {ℓ} : {A : Type ℓ} → ℕ → List A → List A
move_down zero xs = xs
move_down (suc n) [] = []
move_down (suc n) (x ∷ []) = x ∷ []
move_down (suc n) (x ∷ (y ∷ ys)) = y ∷ move_down n (y ∷ ys)

-- An operation on the pair at an index, and then on the table from there on.
unfoldable pub close_at : ℕ → ℕ → List Pair → World → List Pair × World
close_at i moves [] w = ([], w)
close_at zero moves (p ∷ ps) w = let (q, w1) = close_pair p w in (move_down moves (q ∷ ps), w1)
close_at (suc i) moves (p ∷ ps) w = let (qs, w1) = close_at i moves ps w in (p ∷ qs, w1)

unfoldable pub cleanup_connection : ℤ → Pool → World → Pool × World
cleanup_connection index t w =
    let i = pos_part index in
    let (ps, w1) = close_at i (t.connection_count - 1 - i) t.connections w in
    if is_neg index || not (ltb i t.connection_count)
    then (t, w)
    else (record { connections = ps; connection_count = t.connection_count - 1 }, w1)

-- The three totals that `update_stats` computes; they are `unsigned long`.
pub record Totals : Type 0 where
  pub active_connections : ℕ
  pub total_bytes_sent : ℕ
  pub total_bytes_received : ℕ

abbrev pub add_pair : Pair → Totals → Totals
add_pair p s = record {
  active_connections = (s.active_connections + 1) % 2 ^ 64;
  total_bytes_sent = (s.total_bytes_sent + p.bytes_sent) % 2 ^ 64;
  total_bytes_received = (s.total_bytes_received + p.bytes_received) % 2 ^ 64;
}

abbrev pub count_pair : Pair → Totals → Totals
count_pair p s = if p.is_active then add_pair p s else s

abbrev pub count_pairs : List Pair → Totals → Totals
count_pairs [] s = s
count_pairs (p ∷ ps) s = count_pairs ps (count_pair p s)

unfoldable pub update_stats : Pool → Totals
update_stats t =
    count_pairs (take t.connection_count t.connections)
      (record { active_connections = 0; total_bytes_sent = 0; total_bytes_received = 0 })
