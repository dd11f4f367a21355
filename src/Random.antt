-- ===== src/Random.antt =====
-- include/stdlib.h: srand and rand, and the additive feedback generator of srandom, random, initstate
-- and setstate. unsigned and uint_least32_t have 32 bits.
pub mod Bounds
use jaclibc.Base.{
  ℕ, zero, suc, ◌+◌, ◌-◌, ◌*◌, ◌/◌, ◌%◌, ◌^◌, leb, ltb, Option, none, some, ◌==◌, if◌then◌else◌,
  List, get_or, set,
}

-- srand: the new seed.
unfoldable pub srand : ℕ → ℕ
srand s = if s == 0 then 1 else s

-- The result, with & RAND_MAX as % 2 ^ 15, and the new seed.
unfoldable pub rand : ℕ → ℕ × ℕ
rand seed = let seed' = (seed * 1103515245 + 12345) % 2 ^ 32 in (seed' / 2 ^ 16 % 2 ^ 15, seed')

-- The words at __jacl_random_state, and the indices at which __jacl_random_fptr and
-- __jacl_random_rptr point.
pub record Generator : Type 0 where
  pub words : List ℕ
  pub front : ℕ
  pub rear : ℕ

-- if (++p >= &__jacl_random_state[31]) p = __jacl_random_state;
unfoldable pub advance : ℕ → ℕ
advance i = if leb 31 (i + 1) then 0 else i + 1

unfoldable pub random : Generator → ℕ × Generator
unfolding advance
random g =
    let val = (get_or g.words g.front 0 + get_or g.words g.rear 0) % 2 ^ 32 in
    (
      val / 2,
      record { words = set g.words g.front val; front = advance g.front; rear = advance g.rear },
    )

-- for (i = 1; i < 31; i++): `left` is 31 - i.
unfoldable pub seed_loop : ℕ → ℕ → List ℕ → List ℕ
seed_loop zero i words = words
seed_loop (suc left) i words =
    seed_loop left (i + 1) (set words i (16807 * get_or words (i - 1) 0 % 2147483647))

-- for (i = 0; i < 10 * 31; i++) random();
unfoldable pub warm_up : ℕ → Generator → Generator
unfolding random
warm_up zero g = g
warm_up (suc left) g = warm_up left (random g).1

-- On the words of the state array.
unfoldable pub srandom : List ℕ → ℕ → Generator
unfolding seed_loop warm_up
srandom words seed =
    warm_up (10 * 31) (record { words = seed_loop 30 1 (set words 0 seed); front = 3; rear = 0 })

-- `state` is `none` for NULL, else the words that stand there. The result is the old state array
-- and the generator that goes on; `none` is NULL with EINVAL.
unfoldable pub initstate : Generator → ℕ → Option (List ℕ) → ℕ → Option (List ℕ × Generator)
unfolding srandom
initstate g seed none size = none
initstate g seed (some words) size =
    if ltb size (31 * 4) then none else some (g.words, srandom words seed)

unfoldable pub setstate : Generator → Option (List ℕ) → Option (List ℕ × Generator)
setstate g none = none
setstate g (some words) = some (g.words, record { words = words; front = 3; rear = 0 })
