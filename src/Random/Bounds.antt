-- ===== src/Random/Bounds.antt =====
-- The generator stays within its array and its words.
use jaclibc.Base.{
  ℕ, zero, suc, ◌+◌, ◌*◌, ◌^◌, ◌<◌, ◌≡◌, List, [], ◌∷◌, set, length, arith, refl, some, none, ◌⊎◌,
  inl, inr, dec_lt, ◌≤◌, length-set, ◌∙◌,
}
use jaclibc.Random.{Generator, advance, random, seed_loop, warm_up, srandom, initstate}

abbrev pub AreWords : List ℕ → Type 0
AreWords [] = Unit
AreWords (w ∷ ws) = (w < 2 ^ 32) × AreWords ws

-- There are 31 words of 32 bits, and both pointers point at one.
pub record IsGenerator (g : Generator) : Type 0 where
  pub sized : length g.words ≡ 31
  pub bounded : AreWords g.words
  pub front_in : g.front < 31
  pub rear_in : g.rear < 31

set-AreWords : (ws : List ℕ) (i v : ℕ) → AreWords ws → v < 2 ^ 32 → AreWords (set ws i v)
set-AreWords [] i v h lt = tt
set-AreWords (w ∷ ws) zero v h lt = (lt, h.1)
set-AreWords (w ∷ ws) (suc i) v h lt = (h.0, set-AreWords ws i v h.1 lt)

advance_bound : (i : ℕ) → advance i < 31
unfolding advance
advance_bound i = ground arith

random-IsGenerator : (g : Generator) → IsGenerator g → IsGenerator (random g).1
unfolding random
random-IsGenerator g h = record {
  sized = length-set g.words g.front _ ∙ h.sized;
  bounded = set-AreWords g.words g.front _ h.bounded (omega arith);
  front_in = advance_bound g.front;
  rear_in = advance_bound g.rear;
}

random_bound : (g : Generator) → (random g).0 < 2 ^ 31
unfolding random
random_bound g = omega arith

warm_up-IsGenerator : (n : ℕ) (g : Generator) → IsGenerator g → IsGenerator (warm_up n g)
unfolding warm_up
warm_up-IsGenerator zero g h = h
warm_up-IsGenerator (suc n) g h = warm_up-IsGenerator n (random g).1 (random-IsGenerator g h)

length-seed_loop : (left i : ℕ) (ws : List ℕ) → length (seed_loop left i ws) ≡ length ws
unfolding seed_loop
length-seed_loop zero i ws = refl
length-seed_loop (suc left) i ws = length-seed_loop left (i + 1) _ ∙ length-set ws i _

seed_loop-AreWords : (left i : ℕ) (ws : List ℕ) → AreWords ws → AreWords (seed_loop left i ws)
unfolding seed_loop
seed_loop-AreWords zero i ws h = h
seed_loop-AreWords (suc left) i ws h =
    seed_loop-AreWords left (i + 1) _ (set-AreWords ws i _ h (omega arith))

srandom-IsGenerator :
    (words : List ℕ) (seed : ℕ)
    → length words ≡ 31
    → AreWords words
    → seed < 2 ^ 32
    → IsGenerator (srandom words seed)
unfolding srandom
srandom-IsGenerator words seed e h lt = warm_up-IsGenerator (10 * 31) _ (record {
  sized = length-seed_loop 30 1 (set words 0 seed) ∙ length-set words 0 seed ∙ e;
  bounded = seed_loop-AreWords 30 1 (set words 0 seed) (set-AreWords words 0 seed h lt);
  front_in = omega arith;
  rear_in = omega arith;
})

-- srandom, on an array of 31 words and with a seed of 32 bits, gives a generator whose pointers and
-- words are in bounds; initstate refuses an array of fewer than 124 bytes, and else goes on with such
-- a generator; random keeps such a generator in bounds and returns a number below 2 ^ 31.
pub random_lem :
    (words : List ℕ) (seed : ℕ) (g : Generator) (size : ℕ)
    → length words ≡ 31
    → AreWords words
    → seed < 2 ^ 32
    → IsGenerator g
    → IsGenerator (srandom words seed)
      × (((size < 124) × (initstate g seed (some words) size ≡ none))
          ⊎ ((124 ≤ size)
              × ((g' : Generator) × (initstate g seed (some words) size ≡ some (g.words, g'))
                  × IsGenerator g')))
      × IsGenerator (random g).1
      × ((random g).0 < 2 ^ 31)
unfolding initstate
random_lem words seed g size e h lt ok =
    let started = srandom-IsGenerator words seed e h lt in
    (
      started,
      elim (dec_lt size 124) [
        | yes small ↦ inl (small, ground arith)
        | no large ↦ inr (omega arith, (srandom words seed, ground arith, started))
      ],
      random-IsGenerator g ok,
      random_bound g,
    )
