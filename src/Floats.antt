-- ===== src/Floats.antt =====
-- `float` values are their IEEE 754 bit patterns. The machine's arithmetic on them is a parameter:
-- the C files only pass the results on and compare them.
use remote_trans.Base.{ℕ, Bool, List}

pub record Floats : Type 0 where
  pub add : ℕ → ℕ → ℕ
  pub sub : ℕ → ℕ → ℕ
  pub div : ℕ → ℕ → ℕ
  pub lt : ℕ → ℕ → Bool
  -- the conversions from integers, and `atof` with the conversion from `double`
  pub of_nat : ℕ → ℕ
  pub atof : List ℕ → ℕ

-- The literals 0.0f, 0.05f, 0.2f, 0.3f, 0.8f, 1.0f and (float)RAND_MAX.
abbrev pub f0 : ℕ
f0 = 0x00000000

abbrev pub f0_05 : ℕ
f0_05 = 0x3d4ccccd

abbrev pub f0_2 : ℕ
f0_2 = 0x3e4ccccd

abbrev pub f0_3 : ℕ
f0_3 = 0x3e99999a

abbrev pub f0_8 : ℕ
f0_8 = 0x3f4ccccd

abbrev pub f1 : ℕ
f1 = 0x3f800000

abbrev pub frand_max : ℕ
frand_max = 0x4f000000
