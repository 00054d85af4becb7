-- ===== src/Forwarder/Pool/Removal.antt =====
-- What `cleanup_connection` leaves in the table.
use remote_trans.Base.{
  ℕ, zero, suc, ◌+◌, ◌-◌, ◌≤◌, ◌<◌, ◌≡◌, refl, sym, ap, ◌∙◌, List, [], ◌∷◌, ◌++◌, pos, arith,
  length, take, drop, take-take, take-nil, ap₂, lt→ltb,
}
use remote_trans.World.{World}
use remote_trans.Forwarder.Types.{Pair, Pool}
use remote_trans.Forwarder.Pool.{close_pair, move_down, close_at, cleanup_connection}

-- The pairs in use.
abbrev pub live : Pool → List Pair
live t = take t.connection_count t.connections

-- The count fits the table.
abbrev pub IsPool : Pool → Type 0
IsPool t = t.connection_count ≤ length t.connections

take-move_down {ℓ} :
    {A : Type ℓ} (n : ℕ) (x : A) (xs : List A)
    → n ≤ length xs
    → take n (move_down n (x ∷ xs)) ≡ take n xs
take-move_down zero x xs h = refl
take-move_down (suc n) x [] h = ground (arith, h)
take-move_down (suc n) x (y ∷ ys) h = ap (◌∷◌ y) (take-move_down n y ys (omega arith))

length-move_down {ℓ} : {A : Type ℓ} (n : ℕ) (xs : List A) → length (move_down n xs) ≡ length xs
length-move_down zero xs = refl
length-move_down (suc n) [] = refl
length-move_down (suc n) (x ∷ []) = refl
length-move_down (suc n) (x ∷ (y ∷ ys)) = ap suc (length-move_down n (y ∷ ys))

take-drop {ℓ} : {A : Type ℓ} (k n : ℕ) (xs : List A) → take (n - k) (drop k xs) ≡ drop k (take n xs)
take-drop zero n xs = ap (λ m. take m xs) (omega arith)
take-drop (suc k) zero xs = ap (λ m. take m (drop (suc k) xs)) {x = 0 - suc k} {y = 0} (omega arith)
take-drop (suc k) (suc n) [] = take-nil (suc n - suc k)
take-drop (suc k) (suc n) (x ∷ xs) = ap (λ m. take m (drop k xs)) (omega arith) ∙ take-drop k n xs

take-close_at :
    (i n : ℕ) (ps : List Pair) (w : World)
    → i + n < length ps
    → take (i + n) (close_at i n ps w).0 ≡ take i ps ++ take n (drop (suc i) ps)
unfolding close_at
take-close_at i n [] w h = ground (arith, h)
take-close_at zero n (p ∷ ps) w h =
    ap (λ m. take m (move_down n ((close_pair p w).0 ∷ ps))) (omega arith)
    ∙ take-move_down n _ ps (omega arith)
take-close_at (suc i) n (p ∷ ps) w h =
    ap (λ m. take m (p ∷ (close_at i n ps w).0)) {x = suc i + n} {y = suc (i + n)} (omega arith)
    ∙ ap (◌∷◌ p) (take-close_at i n ps w (omega arith))

length-close_at : (i n : ℕ) (ps : List Pair) (w : World) → length (close_at i n ps w).0 ≡ length ps
unfolding close_at
length-close_at i n [] w = refl
length-close_at zero n (p ∷ ps) w = length-move_down n (_ ∷ ps)
length-close_at (suc i) n (p ∷ ps) w = ap suc (length-close_at i n ps w)

-- With an index in use of a table that is as long as its count says, `cleanup_connection` takes that
-- pair out of those in use, keeps the others with their order, and counts one less; the table keeps
-- its size.
pub cleanup_removes :
    (i : ℕ) (t : Pool) (w : World)
    → IsPool t
    → i < t.connection_count
    → let u = (cleanup_connection (pos i) t w).0 in
      (live u ≡ take i (live t) ++ drop (suc i) (live t))
      × (u.connection_count + 1 ≡ t.connection_count)
      × (length u.connections ≡ length t.connections)
unfolding cleanup_connection
cleanup_removes i t w v h = (
  ap live removed ∙ ap (λ k. take k left) (omega arith) ∙ kept ∙ ap₂ ◌++◌ before behind,
  omega (arith, ap (λ (u : Pool). u.connection_count) removed),
  ap (λ (u : Pool). length u.connections) removed ∙ length-close_at i moves t.connections w,
)
  where
    moves : ℕ
    moves = t.connection_count - 1 - i

    left : List Pair
    left = (close_at i moves t.connections w).0

    removed :
        (cleanup_connection (pos i) t w).0
        ≡ record { connections = left; connection_count = t.connection_count - 1 }
    removed = rw (lt→ltb i t.connection_count h)

    kept : take (i + moves) left ≡ take i t.connections ++ take moves (drop (suc i) t.connections)
    kept = take-close_at i moves t.connections w (omega arith)

    before : take i t.connections ≡ take i (live t)
    before = sym (take-take i t.connection_count t.connections (omega arith))

    behind : take moves (drop (suc i) t.connections) ≡ drop (suc i) (live t)
    behind =
        ap (λ k. take k (drop (suc i) t.connections)) (omega arith)
        ∙ take-drop (suc i) t.connection_count t.connections
