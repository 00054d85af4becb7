-- ===== src/Forwarder/Server/Slots.antt =====
-- The table of pairs of rdp_forwarder.c at one index: reading, assignment, and the pairs in use.
use remote_trans.Base.{
  ℕ, zero, suc, ◌-◌, ◌≤◌, ◌<◌, ◌≡◌, refl, ap, some, List, [], ◌∷◌, ◌++◌, pos, arith, length, take,
  drop, get_elem?, lt→ltb,
}
use remote_trans.World.{World}
use remote_trans.Forwarder.Types.{Pair, Pool}
use remote_trans.Forwarder.Pool.{close_pair, close_at, cleanup_connection}
use remote_trans.Forwarder.Server.{put_at}

pub get_elem?-take : (i n : ℕ) (xs : List Pair) → i < n → get_elem? (take n xs) i ≡ get_elem? xs i
get_elem?-take i zero xs h = absurd (omega arith)
get_elem?-take i (suc n) [] h = refl
get_elem?-take zero (suc n) (x ∷ xs) h = refl
get_elem?-take (suc i) (suc n) (x ∷ xs) h = get_elem?-take i n xs (omega arith)

pub drop-get_elem? :
    (i : ℕ) (xs : List Pair) {p : Pair} → get_elem? xs i ≡ some p → drop i xs ≡ p ∷ drop (suc i) xs
drop-get_elem? i [] h = cc
drop-get_elem? zero (x ∷ xs) h = cc
drop-get_elem? (suc i) (x ∷ xs) h = drop-get_elem? i xs h

pub get_elem?-within :
    (i : ℕ) (xs : List Pair) → i < length xs → (p : Pair) × (get_elem? xs i ≡ some p)
get_elem?-within i [] h = absurd (omega arith)
get_elem?-within zero (x ∷ xs) h = (x, refl)
get_elem?-within (suc i) (x ∷ xs) h = get_elem?-within i xs (omega arith)

pub length-put_at : (i : ℕ) (p : Pair) (xs : List Pair) → length (put_at i p xs) ≡ length xs
length-put_at i p [] = refl
length-put_at zero p (x ∷ xs) = refl
length-put_at (suc i) p (x ∷ xs) = ap suc (length-put_at i p xs)

pub get_elem?-put_at :
    (i : ℕ) (p : Pair) (xs : List Pair) → i < length xs → get_elem? (put_at i p xs) i ≡ some p
get_elem?-put_at i p [] h = absurd (omega arith)
get_elem?-put_at zero p (x ∷ xs) h = refl
get_elem?-put_at (suc i) p (x ∷ xs) h = get_elem?-put_at i p xs (omega arith)

-- An assignment within a prefix, and one right behind it.
pub take-put_at :
    (i n : ℕ) (p : Pair) (xs : List Pair)
    → i < n
    → n ≤ length xs
    → take n (put_at i p xs) ≡ take i (take n xs) ++ p ∷ drop (suc i) (take n xs)
take-put_at i zero p xs h l = absurd (omega arith)
take-put_at i (suc n) p [] h l = absurd (omega arith)
take-put_at zero (suc n) p (x ∷ xs) h l = refl
take-put_at (suc i) (suc n) p (x ∷ xs) h l =
    ap (◌∷◌ x) (take-put_at i n p xs (omega arith) (omega arith))

pub take-put_at_end :
    (n : ℕ) (p : Pair) (xs : List Pair)
    → n < length xs
    → take (suc n) (put_at n p xs) ≡ take n xs ++ p ∷ []
take-put_at_end n p [] h = absurd (omega arith)
take-put_at_end zero p (x ∷ xs) h = refl
take-put_at_end (suc n) p (x ∷ xs) h = ap (◌∷◌ x) (take-put_at_end n p xs (omega arith))

pub take-put_at_lem :
    (n i : ℕ) (p : Pair) (xs : List Pair) → take n (put_at i p xs) ≡ put_at i p (take n xs)
take-put_at_lem zero i p xs = refl
take-put_at_lem (suc n) i p [] = refl
take-put_at_lem (suc n) zero p (x ∷ xs) = refl
take-put_at_lem (suc n) (suc i) p (x ∷ xs) = ap (◌∷◌ x) (take-put_at_lem n i p xs)

pub take-put_at_beyond :
    (n i : ℕ) (p : Pair) (xs : List Pair) → n ≤ i → take n (put_at i p xs) ≡ take n xs
take-put_at_beyond zero i p xs h = refl
take-put_at_beyond (suc n) i p [] h = refl
take-put_at_beyond (suc n) zero p (x ∷ xs) h = absurd (omega arith)
take-put_at_beyond (suc n) (suc i) p (x ∷ xs) h =
    ap (◌∷◌ x) (take-put_at_beyond n i p xs (omega arith))

close_at-world :
    (i moves : ℕ) (xs : List Pair) (w : World) {p : Pair}
    → get_elem? xs i ≡ some p
    → (close_at i moves xs w).1 ≡ (close_pair p w).1
unfolding close_at
close_at-world i moves [] w h = cc
close_at-world zero moves (x ∷ xs) w {p} h = ap (λ q. (close_pair q w).1) (cc h)
close_at-world (suc i) moves (x ∷ xs) w h = close_at-world i moves xs w h

pub cleanup_world :
    (i : ℕ) (t : Pool) (w : World) {p : Pair}
    → i < t.connection_count
    → get_elem? t.connections i ≡ some p
    → (cleanup_connection (pos i) t w).1 ≡ (close_pair p w).1
unfolding cleanup_connection
cleanup_world i t w h e =
    rw (lt→ltb i t.connection_count h)
      (close_at-world i (t.connection_count - 1 - i) t.connections w e)
