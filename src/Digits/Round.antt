-- ===== src/Digits/Round.antt =====
-- a64l reads what l64a writes.
use jaclibc.Base.{
  ℕ, zero, suc, ◌+◌, ◌*◌, ◌/◌, ◌%◌, ◌^◌, ◌<◌, ◌≡◌, Bool, true, false, ◌&&◌, ◌==◌, Option, none,
  some, List, [], ◌∷◌, get_or, arith, refl, ap, subst, ℕ_discrete, if_cases, ◌∙◌, sym,
}
use native.Mathlib.Nat.{mod-add-div', mul_comm, mul_assoc, add-mul, pow-suc}
use jaclibc.Digits.{base64, digit_of, a64l_loop, a64l, l64a_loop, l64a}

abbrev is_digit : Option ℕ → ℕ → Bool
is_digit none k = false
is_digit (some d) k = d == k

-- The first n digits stand at their own places.
abbrev all_digits : ℕ → Bool
all_digits zero = true
all_digits (suc n) = is_digit (digit_of base64 (get_or base64 n 0)) n && all_digits n

is_digit_eq : (o : Option ℕ) (k : ℕ) → is_digit o k ≡ true → o ≡ some k
is_digit_eq none k h = ground arith
is_digit_eq (some d) k h = ground arith

digits_below :
    (n k : ℕ) → all_digits n ≡ true → k < n → digit_of base64 (get_or base64 k 0) ≡ some k
digits_below zero k h lt = absurd (omega arith)
digits_below (suc n) k h lt = elim (ℕ_discrete k n) [
  | yes same ↦ rw same (is_digit_eq (digit_of base64 (get_or base64 n 0)) n (ground arith))
  | no ne ↦ digits_below n k (ground arith) (omega arith)
]

all_64 : all_digits 64 ≡ true
unfolding digit_of
all_64 = refl

place_value : (v mult : ℕ) → v % 64 * mult + v / 64 * (mult * 64) ≡ v * mult
place_value v mult =
    ap (λ (t : ℕ). v % 64 * mult + v / 64 * t) (mul_comm mult 64)
    ∙ ap (λ (t : ℕ). v % 64 * mult + t) (sym (mul_assoc (v / 64) 64 mult))
    ∙ sym (add-mul (v % 64) (v / 64 * 64) mult)
    ∙ ap (λ (t : ℕ). t * mult) (mod-add-div' v 64)

-- One round of a64l's loop.
one_digit :
    (left c k : ℕ) (s : List ℕ) (result mult : ℕ)
    → digit_of base64 c ≡ some k
    → a64l_loop (suc left) (c ∷ s) result mult ≡ a64l_loop left s (result + k * mult) (mult * 64)
unfolding a64l_loop
one_digit left c k s result mult e = go (digit_of base64 c) e
  where
    go :
        (o : Option ℕ)
        → o ≡ some k
        → (elim o [ none ↦ result | some j ↦ a64l_loop left s (result + j * mult) (mult * 64) ])
          ≡ a64l_loop left s (result + k * mult) (mult * 64)
    go none e' = absurd (ground (arith, e'))
    go (some j) e' =
        ap (λ (t : ℕ). a64l_loop left s (result + t * mult) (mult * 64)) (ground (arith, e'))

-- Where the string ends.
ended : (left v result mult : ℕ) → v ≡ 0 → a64l_loop left [] result mult ≡ result + v * mult
unfolding a64l_loop
ended zero v result mult e = rw e (omega arith)
ended (suc left) v result mult e = rw e (omega arith)

loops_lem :
    (left v result mult : ℕ)
    → v < 64 ^ left
    → a64l_loop left (l64a_loop left v) result mult ≡ result + v * mult
unfolding l64a_loop
loops_lem zero v result mult lt = ended zero v result mult (omega arith)
loops_lem (suc left) v result mult lt =
    let below : v < 64 ^ left * 64 = subst (λ (t : ℕ). v < t) (pow-suc 64 left) lt in
    let less : v / 64 < 64 ^ left = omega arith in
    let rest = loops_lem left (v / 64) (result + v % 64 * mult) (mult * 64) less in
    let value : result + v % 64 * mult + v / 64 * (mult * 64) ≡ result + v * mult =
      omega (arith, place_value v mult) in
    let digit = digits_below 64 (v % 64) all_64 (omega arith) in
    if_cases (λ (t : List ℕ). a64l_loop (suc left) t result mult ≡ result + v * mult) (v == 0) _ _
      (λ e. ended (suc left) v result mult (ground arith))
      (λ e.
        one_digit left (get_or base64 (v % 64) 0) (v % 64) (l64a_loop left (v / 64)) result mult
          digit
        ∙ rest
        ∙ value)

-- a64l of what l64a writes for a value is the value's low 32 bits.
pub a64l-l64a : (v : ℕ) → a64l (l64a v) ≡ v % 2 ^ 32
unfolding a64l l64a
a64l-l64a v = loops_lem 6 (v % 2 ^ 32) 0 1 (omega arith) ∙ omega arith
