-- ===== src/Base/Lists.antt =====
-- Lists measured and cut by native numbers, under the library's names.
use Prim.Native.Nat.{ℕ, zero, suc, ◌+◌, ◌-◌, ◌≤◌, min}
use mathlib.Core.Path.{◌≡◌, refl, ap, sym, ◌∙◌}
use mathlib.Core.List.{List, [], ◌∷◌, ◌++◌}
use mathlib.Core.Option.{Option, none, some}
use native.Mathlib.Omega.{arith}

module _ {ℓ} {A : Type ℓ} where
  abbrev pub length : List A → ℕ
  length [] = 0
  length (x ∷ xs) = suc (length xs)

  abbrev pub get_elem? : List A → ℕ → Option A
  get_elem? [] i = none
  get_elem? (x ∷ xs) zero = some x
  get_elem? (x ∷ xs) (suc i) = get_elem? xs i

  abbrev pub take : ℕ → List A → List A
  take zero xs = []
  take (suc n) [] = []
  take (suc n) (x ∷ xs) = x ∷ take n xs

  abbrev pub drop : ℕ → List A → List A
  drop zero xs = xs
  drop (suc n) [] = []
  drop (suc n) (x ∷ xs) = drop n xs

  abbrev pub replicate : ℕ → A → List A
  replicate zero a = []
  replicate (suc n) a = a ∷ replicate n a

  pub take-nil : (n : ℕ) → take n ([]) ≡ []
  take-nil zero = refl
  take-nil (suc n) = refl

  pub length-append : (xs ys : List A) → length (xs ++ ys) ≡ length xs + length ys
  length-append [] ys = omega arith
  length-append (x ∷ xs) ys = omega (arith, length-append xs ys)

  pub length-take : (n : ℕ) (xs : List A) → length (take n xs) ≡ min n (length xs)
  length-take zero xs = omega arith
  length-take (suc n) [] = omega arith
  length-take (suc n) (x ∷ xs) = omega (arith, length-take n xs)

  pub length-drop : (n : ℕ) (xs : List A) → length (drop n xs) ≡ length xs - n
  length-drop zero xs = omega arith
  length-drop (suc n) [] = omega arith
  length-drop (suc n) (x ∷ xs) = omega (arith, length-drop n xs)

  pub length-replicate : (n : ℕ) (a : A) → length (replicate n a) ≡ n
  length-replicate zero a = refl
  length-replicate (suc n) a = ap suc (length-replicate n a)

  pub take-append-drop : (n : ℕ) (xs : List A) → take n xs ++ drop n xs ≡ xs
  take-append-drop zero xs = refl
  take-append-drop (suc n) [] = refl
  take-append-drop (suc n) (x ∷ xs) = ap (◌∷◌ x) (take-append-drop n xs)

  -- A prefix that takes the whole of a first part, and what is left then.
  pub take-append_all : (xs ys : List A) (n : ℕ) → n ≡ length xs → take n (xs ++ ys) ≡ xs
  take-append_all [] ys zero h = refl
  take-append_all [] ys (suc n) h = absurd (omega arith)
  take-append_all (x ∷ xs) ys zero h = absurd (omega arith)
  take-append_all (x ∷ xs) ys (suc n) h = ap (◌∷◌ x) (take-append_all xs ys n (omega arith))

  pub drop-append_all : (xs ys : List A) (n : ℕ) → n ≡ length xs → drop n (xs ++ ys) ≡ ys
  drop-append_all [] ys zero h = refl
  drop-append_all [] ys (suc n) h = absurd (omega arith)
  drop-append_all (x ∷ xs) ys zero h = absurd (omega arith)
  drop-append_all (x ∷ xs) ys (suc n) h = drop-append_all xs ys n (omega arith)

  pub take-append_past :
      (xs ys : List A) (m n : ℕ) → m ≡ length xs + n → take m (xs ++ ys) ≡ xs ++ take n ys
  take-append_past [] ys m n h = ap (λ k. take k ys) (omega arith)
  take-append_past (x ∷ xs) ys zero n h = absurd (omega arith)
  take-append_past (x ∷ xs) ys (suc m) n h = ap (◌∷◌ x) (take-append_past xs ys m n (omega arith))

  pub drop-append_past :
      (xs ys : List A) (m n : ℕ) → m ≡ length xs + n → drop m (xs ++ ys) ≡ drop n ys
  drop-append_past [] ys m n h = ap (λ k. drop k ys) (omega arith)
  drop-append_past (x ∷ xs) ys zero n h = absurd (omega arith)
  drop-append_past (x ∷ xs) ys (suc m) n h = drop-append_past xs ys m n (omega arith)

  pub take_all : (n : ℕ) (xs : List A) → length xs ≤ n → take n xs ≡ xs
  take_all zero [] h = refl
  take_all zero (x ∷ xs) h = absurd (omega arith)
  take_all (suc n) [] h = refl
  take_all (suc n) (x ∷ xs) h = ap (◌∷◌ x) (take_all n xs (omega arith))

  pub drop_all : (n : ℕ) (xs : List A) → length xs ≤ n → drop n xs ≡ []
  drop_all zero [] h = refl
  drop_all zero (x ∷ xs) h = absurd (omega arith)
  drop_all (suc n) [] h = refl
  drop_all (suc n) (x ∷ xs) h = drop_all n xs (omega arith)

  pub take-take : (k n : ℕ) (xs : List A) → k ≤ n → take k (take n xs) ≡ take k xs
  take-take zero n xs h = refl
  take-take (suc k) zero xs h = absurd (omega arith)
  take-take (suc k) (suc n) [] h = refl
  take-take (suc k) (suc n) (x ∷ xs) h = ap (◌∷◌ x) (take-take k n xs (omega arith))

  pub take-append_left : (n : ℕ) (xs ys : List A) → n ≤ length xs → take n (xs ++ ys) ≡ take n xs
  take-append_left zero xs ys h = refl
  take-append_left (suc n) [] ys h = absurd (omega arith)
  take-append_left (suc n) (x ∷ xs) ys h = ap (◌∷◌ x) (take-append_left n xs ys (omega arith))

  pub take-take-min : (k n : ℕ) (xs : List A) → take k (take n xs) ≡ take (min n k) xs
  take-take-min zero n xs = ap (λ m. take m xs) {x = 0} (omega arith)
  take-take-min (suc k) zero xs = ap (λ m. take m xs) {x = 0} (omega arith)
  take-take-min (suc k) (suc n) [] = sym (take-nil (min (suc n) (suc k)))
  take-take-min (suc k) (suc n) (x ∷ xs) =
      ap (◌∷◌ x) (take-take-min k n xs)
      ∙ ap (λ m. take m (x ∷ xs)) {x = suc (min n k)} (omega arith)

  pub take-append :
      (n : ℕ) (xs ys : List A) → take n (xs ++ ys) ≡ take n xs ++ take (n - length xs) ys
  take-append n [] ys = rw (take-nil n) (ap (λ m. take m ys) (omega arith))
  take-append zero (x ∷ xs) ys = ap (λ m. take m ys) {x = 0} (omega arith)
  take-append (suc n) (x ∷ xs) ys =
      ap (◌∷◌ x) (take-append n xs ys ∙ ap (λ m. take n xs ++ take m ys) (omega arith))

  pub drop-append_left :
      (n : ℕ) (xs ys : List A) → n ≤ length xs → drop n (xs ++ ys) ≡ drop n xs ++ ys
  drop-append_left zero xs ys h = refl
  drop-append_left (suc n) [] ys h = absurd (omega arith)
  drop-append_left (suc n) (x ∷ xs) ys h = drop-append_left n xs ys (omega arith)

  -- A prefix in two parts.
  pub take-append-take :
      (n k : ℕ) (xs : List A) → take n xs ++ take k (drop n xs) ≡ take (length (take n xs) + k) xs
  take-append-take zero k xs = ap (λ m. take m xs) (omega arith)
  take-append-take (suc n) k [] = take-nil k ∙ sym (take-nil (0 + k))
  take-append-take (suc n) k (x ∷ xs) =
      ap (◌∷◌ x) (take-append-take n k xs)
      ∙ ap (λ m. take m (x ∷ xs)) {x = suc (length (take n xs) + k)} (omega arith)

  -- A slice that lies within a prefix does not depend on what follows it.
  pub slice_of_prefix :
      (o k n : ℕ) (xs ys : List A)
      → o + k ≤ n
      → n ≤ length xs
      → take k (drop o (take n xs ++ ys)) ≡ take k (drop o xs)
  slice_of_prefix zero k n xs ys h l =
      take-append_left k (take n xs) ys (omega (arith, length-take n xs))
      ∙ take-take k n xs (omega arith)
  slice_of_prefix (suc o) k zero xs ys h l = absurd (omega arith)
  slice_of_prefix (suc o) k (suc n) [] ys h l = absurd (omega arith)
  slice_of_prefix (suc o) k (suc n) (x ∷ xs) ys h l =
      slice_of_prefix o k n xs ys (omega arith) (omega arith)

-- A predicate on every element.
abbrev pub All {ℓ κ} : {A : Type ℓ} → (A → Type κ) → List A → Type κ
All P [] = Unit
All P (x ∷ xs) = P x × All P xs

pub All-append {ℓ κ} :
    {A : Type ℓ} (P : A → Type κ) (xs ys : List A) → All P xs → All P ys → All P (xs ++ ys)
All-append P [] ys hx hy = hy
All-append P (x ∷ xs) ys hx hy = (hx.0, All-append P xs ys hx.1 hy)
