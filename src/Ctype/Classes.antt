-- ===== src/Ctype/Classes.antt =====
-- How the classes of include/ctype.h cut up the values of an unsigned char.
use jaclibc.Base.{
  ℕ, zero, suc, ◌<◌, ◌≡◌, ◌↔◌, Bool, true, false, ◌&&◌, ◌||◌, not, ◌==◌, arith, refl, leb,
}
use jaclibc.Ctype.{
  iscntrl, isprint, isgraph, isupper, islower, isalnum, ispunct, isxdigit, tolower, toupper,
}

-- Every value below n passes the test.
all_below : ℕ → (ℕ → Bool) → Bool
all_below zero p = true
all_below (suc n) p = p n && all_below n p

all_below_lem : (n : ℕ) (p : ℕ → Bool) (x : ℕ) → all_below n p ≡ true → x < n → p x ≡ true
unfolding all_below
all_below_lem zero p x h lt = absurd (omega arith)
all_below_lem (suc n) p x h lt = ground (arith, all_below_lem n p x)

abbrev is_hex : ℕ → Bool
is_hex c = (leb b'0' c && leb c b'9') || (leb b'A' c && leb c b'F') || (leb b'a' c && leb c b'f')

abbrev same : Bool → Bool → Bool
same true b = b
same false b = not b

hex_table : all_below 256 (λ c. same (isxdigit c) (is_hex c)) ≡ true
unfolding all_below isxdigit
hex_table = refl

hex_digits : (c : ℕ) → c < 256 → (isxdigit c ≡ true) ↔ (is_hex c ≡ true)
hex_digits c lt = same_iff (isxdigit c) (is_hex c) (all_below_lem 256 _ c hex_table lt)
  where
    same_iff : (a b : Bool) → same a b ≡ true → (a ≡ true) ↔ (b ≡ true)
    same_iff true b h = (λ e. h, λ e. refl)
    same_iff false true h = (λ e. refl, λ e. h)
    same_iff false false h = (λ e. e, λ e. e)

-- For a value of an unsigned char: isxdigit holds exactly for the digits and the letters A to F in
-- either case; a value below 128 is a control character or prints, and never both; a character that
-- prints is the space, a letter or digit, or punctuation, and one of these only; a letter is of one
-- case; folding the case twice is folding it once, and undoes the other folding on a letter.
pub ctype_classes :
    (c : ℕ)
    → c < 256
    → ((isxdigit c ≡ true) ↔ (is_hex c ≡ true))
      × (c < 128 → iscntrl c ≡ not (isprint c))
      × (isprint c ≡ (c == b' ' || (isalnum c || ispunct c)))
      × ((isalnum c && ispunct c) ≡ false)
      × ((isupper c && islower c) ≡ false)
      × (tolower (tolower c) ≡ tolower c)
      × (toupper (toupper c) ≡ toupper c)
      × (isupper c ≡ true → toupper (tolower c) ≡ c)
      × (islower c ≡ true → tolower (toupper c) ≡ c)
unfolding iscntrl isprint isgraph ispunct isalnum tolower toupper
ctype_classes c lt = (
  hex_digits c lt,
  λ ascii. ground arith,
  ground arith,
  ground arith,
  ground arith,
  ground arith,
  ground arith,
  λ up. ground arith,
  λ low. ground arith,
)
