-- ===== src/Forwarder/Server/Admission/Reuse.antt =====
-- The pair that `main` reuses for a new client.
use remote_trans.Base.{
  ℕ, zero, suc, ◌<◌, ◌≡◌, refl, true, ◌&&◌, some, List, [], ◌∷◌, arith, get_elem?, is_set,
  Bool-cases, Option-cases, inl, inr, subst, ◌⊎◌, All, take, false, none,
}
use remote_trans.Forwarder.Types.{Pair, Pool, Config}
use remote_trans.Forwarder.Pool.Removal.{live}
use remote_trans.Forwarder.Server.Admission.{find_reusable, reusable}

-- The pair has not both lost its client and kept its target.
abbrev pub Unfit : Pair → Type 0
Unfit p = (p.client_disconnected ≡ false) ⊎ (p.target_ready ≡ false)

-- The first pair in use that has lost its client and kept its target, with its index.
pub record Reusable (n : ℕ) (ps : List Pair) (i : ℕ) (p : Pair) : Type 0 where
  pub within : i < n
  pub found : get_elem? ps i ≡ some p
  pub gone : p.client_disconnected ≡ true
  pub ready : p.target_ready ≡ true
  pub first : All Unfit (take i ps)

pub find_reusable-Reusable :
    (n : ℕ) (ps : List Pair) {i : ℕ} {p : Pair}
    → find_reusable n ps ≡ some (i, p)
    → Reusable n ps i p
unfolding find_reusable
find_reusable-Reusable zero ps h = cc
find_reusable-Reusable (suc n) [] h = cc
find_reusable-Reusable (suc n) (q ∷ qs) {i} {p} h =
    elim (Bool-cases (q.client_disconnected && q.target_ready)) [
      | inl e ↦
          at (0, q) (ground (arith, h, e))
            (record {
              within = omega arith;
              found = refl;
              gone = ground (arith, e);
              ready = ground (arith, e);
              first = tt;
            })
      | inr e ↦ elim (Option-cases (find_reusable n qs)) [
        | inl f ↦ ground (arith, h, e, f)
        | inr ((j, r), f) ↦
            let later = find_reusable-Reusable n qs {i = j} {p = r} f in
            at (suc j, r) (ground (arith, h, e, f))
              (record {
                within = omega (arith, later.within);
                found = later.found;
                gone = later.gone;
                ready = later.ready;
                first = (ground (arith, e), later.first);
              })
      ]
    ]
  where
    at :
        (x : ℕ × Pair)
        → x ≡ (i, p)
        → Reusable (suc n) (q ∷ qs) x.0 x.1
        → Reusable (suc n) (q ∷ qs) i p
    at x e k = subst (λ (y : ℕ × Pair). Reusable (suc n) (q ∷ qs) y.0 y.1) {x = x} {y = (i, p)} e k

-- There is none: the pairs in use are all unfit.
find_reusable-none : (n : ℕ) (ps : List Pair) → find_reusable n ps ≡ none → All Unfit (take n ps)
unfolding find_reusable
find_reusable-none zero ps h = tt
find_reusable-none (suc n) [] h = tt
find_reusable-none (suc n) (q ∷ qs) h =
    elim (Bool-cases (q.client_disconnected && q.target_ready)) [
      | inl e ↦ absurd (ground (arith, h, e))
      | inr e ↦ elim (Option-cases (find_reusable n qs)) [
        | inl f ↦ (ground (arith, e), find_reusable-none n qs f)
        | inr ((j, r), f) ↦ absurd (ground (arith, h, e, f))
      ]
    ]

-- Fast reconnection is off, or there is no pair to reuse.
abbrev pub NoneFits : Config → Pool → Type 0
NoneFits cfg t = (is_set cfg.enable_fast_reconnect ≡ false) ⊎ All Unfit (live t)

pub reusable-none : (cfg : Config) (t : Pool) → reusable cfg t ≡ none → NoneFits cfg t
reusable-none cfg t h = elim (Bool-cases (is_set cfg.enable_fast_reconnect)) [
  | inl e ↦ inr (find_reusable-none t.connection_count t.connections (ground (arith, h, e)))
  | inr e ↦ inl e
]

pub reusable-enabled :
    (cfg : Config) (t : Pool) {i : ℕ} {p : Pair}
    → reusable cfg t ≡ some (i, p)
    → is_set cfg.enable_fast_reconnect ≡ true
reusable-enabled cfg t {i} {p} h = ground (arith, h)

pub reusable-Reusable :
    (cfg : Config) (t : Pool) {i : ℕ} {p : Pair}
    → reusable cfg t ≡ some (i, p)
    → Reusable t.connection_count t.connections i p
reusable-Reusable cfg t {i} {p} h = elim (Bool-cases (is_set cfg.enable_fast_reconnect)) [
  | inl e ↦ find_reusable-Reusable t.connection_count t.connections (ground (arith, h, e))
  | inr e ↦ absurd (ground (arith, h, e))
]
