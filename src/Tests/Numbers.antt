-- ===== src/Tests/Numbers.antt =====
-- Runs of the random number generator.
use jaclibc.Base.{ℕ, zero, suc, ◌<◌, ◌^◌, replicate, refl, arith}
use jaclibc.Random.{Generator, random}
use jaclibc.Random.Bounds.{AreWords, IsGenerator, random_lem}

replicate-AreWords : (n v : ℕ) → v < 2 ^ 32 → AreWords (replicate n v)
replicate-AreWords zero v lt = tt
replicate-AreWords (suc n) v lt = (lt, replicate-AreWords n v lt)

abbrev all_fives : Generator
all_fives = record { words = replicate 31 5; front = 3; rear = 0 }

all_fives-IsGenerator : IsGenerator all_fives
all_fives-IsGenerator = record {
  sized = refl;
  bounded = replicate-AreWords 31 5 (omega arith);
  front_in = omega arith;
  rear_in = omega arith;
}

random_run : (random all_fives).0 < 2 ^ 31
random_run =
    (random_lem (replicate 31 5) 42 all_fives 128 refl (replicate-AreWords 31 5 (omega arith))
      (omega arith) all_fives-IsGenerator).3
