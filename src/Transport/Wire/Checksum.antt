-- ===== src/Transport/Wire/Checksum.antt =====
-- What the checksum of hybrid_transport.c detects.
use remote_trans.Base.{ℕ, ◌^◌, ◌<◌, ◌≡◌, ◌≢◌, refl, List, [], ◌∷◌, ◌++◌, arith}
use remote_trans.Transport.Wire.{checksum_step, checksum_from, ht_calculate_checksum}

checksum_step-lt : (c b : ℕ) → checksum_step c b < 2 ^ 32
checksum_step-lt c b = omega arith

pub checksum_from-lt : (c : ℕ) (bs : List ℕ) → c < 2 ^ 32 → checksum_from c bs < 2 ^ 32
unfolding checksum_from
checksum_from-lt c [] h = h
checksum_from-lt c (b ∷ bs) h = checksum_from-lt (checksum_step c b) bs (checksum_step-lt c b)

-- The checksum fits the header's 32-bit field.
pub ht_calculate_checksum-lt : (bs : List ℕ) → ht_calculate_checksum bs < 2 ^ 32
unfolding ht_calculate_checksum
ht_calculate_checksum-lt bs = checksum_from-lt 0 bs (omega arith)

pub checksum_from-append :
    (c : ℕ) (xs ys : List ℕ) → checksum_from c (xs ++ ys) ≡ checksum_from (checksum_from c xs) ys
unfolding checksum_from
checksum_from-append c [] ys = refl
checksum_from-append c (x ∷ xs) ys = checksum_from-append (checksum_step c x) xs ys

-- A step loses nothing of the state, and nothing of the byte.
checksum_step-injective :
    (c d b : ℕ) → c < 2 ^ 32 → d < 2 ^ 32 → checksum_step c b ≡ checksum_step d b → c ≡ d
checksum_step-injective c d b hc hd e = omega arith

checksum_step-byte :
    (c a b : ℕ) → c < 2 ^ 32 → a < 256 → b < 256 → checksum_step c a ≡ checksum_step c b → a ≡ b
checksum_step-byte c a b hc ha hb e = omega arith

checksum_from-injective :
    (bs : List ℕ) (c d : ℕ)
    → c < 2 ^ 32
    → d < 2 ^ 32
    → checksum_from c bs ≡ checksum_from d bs
    → c ≡ d
unfolding checksum_from
checksum_from-injective [] c d hc hd e = e
checksum_from-injective (b ∷ bs) c d hc hd e = checksum_step-injective c d b hc hd (
    checksum_from-injective bs (checksum_step c b) (checksum_step d b) (checksum_step-lt c b)
      (checksum_step-lt d b) e)

-- Two messages of bytes that differ in exactly one byte have different checksums.
pub checksum_detects :
    (xs ys : List ℕ) (a b : ℕ)
    → a < 256
    → b < 256
    → a ≢ b
    → ht_calculate_checksum (xs ++ a ∷ ys) ≢ ht_calculate_checksum (xs ++ b ∷ ys)
unfolding ht_calculate_checksum checksum_from
checksum_detects xs ys a b ha hb ne e = ne (
    checksum_step-byte (checksum_from 0 xs) a b (checksum_from-lt 0 xs (omega arith)) ha hb (
      checksum_from-injective ys (checksum_step (checksum_from 0 xs) a)
        (checksum_step (checksum_from 0 xs) b) (checksum_step-lt _ a) (checksum_step-lt _ b)
        (split e)))
  where
    split :
        checksum_from 0 (xs ++ a ∷ ys) ≡ checksum_from 0 (xs ++ b ∷ ys)
        → checksum_from (checksum_step (checksum_from 0 xs) a) ys
          ≡ checksum_from (checksum_step (checksum_from 0 xs) b) ys
    split h = rw (checksum_from-append, checksum_from-append) at h
