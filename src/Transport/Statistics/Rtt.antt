-- ===== src/Transport/Statistics/Rtt.antt =====
-- The round-trip statistics after any number of samples.
use remote_trans.Base.{ℕ, ◌^◌, ◌<◌, ◌≤◌, ◌≡◌, refl, ap, ◌∙◌, List, [], ◌∷◌, arith, All, min, max}
use remote_trans.Transport.Types.{Stats}
use remote_trans.Transport.Statistics.{ht_update_rtt, empty_stats}

-- The samples of a connection in their order of arrival.
pub update_all : List ℕ → Stats → Stats
update_all [] s = s
update_all (r ∷ rs) s = update_all rs (ht_update_rtt r s)

-- The smallest and the largest sample, beginning with what is there.
abbrev pub minimum : ℕ → List ℕ → ℕ
minimum m [] = m
minimum m (r ∷ rs) = minimum (min m r) rs

abbrev pub maximum : ℕ → List ℕ → ℕ
maximum m [] = m
maximum m (r ∷ rs) = maximum (max m r) rs

pub rtt_min-update : (r : ℕ) (s : Stats) → (ht_update_rtt r s).rtt_min ≡ min s.rtt_min r
unfolding ht_update_rtt
rtt_min-update r s = ground arith

pub rtt_max-update : (r : ℕ) (s : Stats) → (ht_update_rtt r s).rtt_max ≡ max s.rtt_max r
unfolding ht_update_rtt
rtt_max-update r s = ground arith

-- A connection that has seen a sample, all of them below 2^29.
pub record IsSampled (s : Stats) : Type 0 where
  pub low : s.rtt_min ≤ s.rtt_avg
  pub high : s.rtt_avg ≤ s.rtt_max
  pub small : s.rtt_max < 2 ^ 29

pub update-IsSampled :
    (r : ℕ) (s : Stats) → r < 2 ^ 29 → IsSampled s → IsSampled (ht_update_rtt r s)
unfolding ht_update_rtt
update-IsSampled r s h v = ground arith

first-IsSampled : (r : ℕ) → r < 2 ^ 29 → IsSampled (ht_update_rtt r empty_stats)
unfolding ht_update_rtt
first-IsSampled r h = ground arith

update_all-IsSampled :
    (rs : List ℕ) (s : Stats) → All (λ r. r < 2 ^ 29) rs → IsSampled s → IsSampled (update_all rs s)
unfolding update_all
update_all-IsSampled [] s h v = v
update_all-IsSampled (r ∷ rs) s h v =
    update_all-IsSampled rs (ht_update_rtt r s) h.1 (update-IsSampled r s h.0 v)

update_all-extremes :
    (rs : List ℕ) (s : Stats)
    → ((update_all rs s).rtt_min ≡ minimum s.rtt_min rs)
      × ((update_all rs s).rtt_max ≡ maximum s.rtt_max rs)
unfolding update_all
update_all-extremes [] s = (refl, refl)
update_all-extremes (r ∷ rs) s =
    rw (← rtt_min-update r s, ← rtt_max-update r s) (update_all-extremes rs (ht_update_rtt r s))

-- From a reset connection on, after at least one sample and with every sample below 2^29, the
-- recorded minimum and maximum are those of the samples, and the moving average, whose sums then
-- fit 32 bits, lies between them.
pub rtt_bounds :
    (r : ℕ) (rs : List ℕ)
    → All (λ x. x < 2 ^ 29) (r ∷ rs)
    → let s = update_all (r ∷ rs) empty_stats in
      (s.rtt_min ≡ minimum r rs)
      × (s.rtt_max ≡ maximum r rs)
      × (s.rtt_min ≤ s.rtt_avg)
      × (s.rtt_avg ≤ s.rtt_max)
unfolding update_all
rtt_bounds r rs h = (
  ends.0 ∙ ap (λ m. minimum m rs) (omega (arith, rtt_min-update r empty_stats, h.0)),
  ends.1 ∙ ap (λ m. maximum m rs) (omega (arith, rtt_max-update r empty_stats)),
  inside.low,
  inside.high,
)
  where
    ends :
        ((update_all rs (ht_update_rtt r empty_stats)).rtt_min
          ≡ minimum (ht_update_rtt r empty_stats).rtt_min rs)
        × ((update_all rs (ht_update_rtt r empty_stats)).rtt_max
            ≡ maximum (ht_update_rtt r empty_stats).rtt_max rs)
    ends = update_all-extremes rs (ht_update_rtt r empty_stats)

    inside : IsSampled (update_all rs (ht_update_rtt r empty_stats))
    inside = update_all-IsSampled rs (ht_update_rtt r empty_stats) h.1 (first-IsSampled r h.0)
