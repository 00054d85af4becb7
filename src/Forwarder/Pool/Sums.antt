-- ===== src/Forwarder/Pool/Sums.antt =====
-- What `update_stats` adds up.
use remote_trans.Base.{
  ℕ, ◌+◌, ◌%◌, ◌^◌, ◌≡◌, ◌<◌, if◌then◌else◌, List, [], ◌∷◌, arith, length, Bool-cases, inl, inr,
}
use remote_trans.Forwarder.Types.{Pair, Pool}
use remote_trans.Forwarder.Pool.{Totals, add_pair, count_pairs, update_stats}
use remote_trans.Forwarder.Pool.Removal.{live}

-- The pairs that are active, and an exact sum.
abbrev pub active_ones : List Pair → List Pair
active_ones [] = []
active_ones (p ∷ ps) = let rest = active_ones ps in if p.is_active then p ∷ rest else rest

abbrev pub sum_of : (Pair → ℕ) → List Pair → ℕ
sum_of f [] = 0
sum_of f (p ∷ ps) = f p + sum_of f ps

abbrev Fits : Totals → Type 0
Fits s =
    (s.active_connections < 2 ^ 64)
    × (s.total_bytes_sent < 2 ^ 64)
    × (s.total_bytes_received < 2 ^ 64)

record Counted (s : Totals) (ps : List Pair) (r : Totals) : Type 0 where
  pairs : r.active_connections ≡ (s.active_connections + length ps) % 2 ^ 64
  sent : r.total_bytes_sent ≡ (s.total_bytes_sent + sum_of (λ p. p.bytes_sent) ps) % 2 ^ 64
  received :
      r.total_bytes_received ≡ (s.total_bytes_received + sum_of (λ p. p.bytes_received) ps) % 2 ^ 64

count_pairs-Counted :
    (ps : List Pair) (s : Totals) → Fits s → Counted s (active_ones ps) (count_pairs ps s)
count_pairs-Counted [] s v = record {
  pairs = omega (arith, v.0);
  sent = omega (arith, v.1);
  received = omega (arith, v.2);
}
count_pairs-Counted (p ∷ ps) s v = elim (Bool-cases p.is_active) [
  | inl e ↦
      let rest = count_pairs-Counted ps (add_pair p s) (omega arith, omega arith, omega arith) in
      rw e (record {
        pairs = omega (arith, rest.pairs);
        sent = omega (arith, rest.sent);
        received = omega (arith, rest.received);
      })
  | inr e ↦ rw e (count_pairs-Counted ps s v)
]

-- `update_stats` counts the active pairs among those in use, and adds up their bytes in each
-- direction, all modulo 2^64.
pub update_stats_totals :
    (t : Pool)
    → let ps = active_ones (live t) in
      ((update_stats t).active_connections ≡ length ps % 2 ^ 64)
      × ((update_stats t).total_bytes_sent ≡ sum_of (λ p. p.bytes_sent) ps % 2 ^ 64)
      × ((update_stats t).total_bytes_received ≡ sum_of (λ p. p.bytes_received) ps % 2 ^ 64)
unfolding update_stats
update_stats_totals t =
    (omega (arith, counted.pairs), omega (arith, counted.sent), omega (arith, counted.received))
  where
    counted :
        Counted
          (record { active_connections = 0; total_bytes_sent = 0; total_bytes_received = 0 })
          (active_ones (live t))
          (update_stats t)
    counted = count_pairs-Counted (live t) _ (omega arith, omega arith, omega arith)
