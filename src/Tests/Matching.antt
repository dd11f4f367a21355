-- ===== src/Tests/Matching.antt =====
-- Runs of the classes of include/core/match.h.
use jaclibc.Base.{ℕ, ◌≡◌, inl, Bool, true, false, some, none, List, [], ◌∷◌, ◌++◌, refl, arith}
use jaclibc.Utf.{wcrtomb}
use jaclibc.Regex.{
  Ranges, passes, shift_low, merge_loop, add_range, append_range, entry_has, member_loop, in_class,
  utf8_next,
}
use jaclibc.Regex.Chars.{utf8_next-wcrtomb}
use jaclibc.Regex.Classes.{Joins, add_range_lem}

abbrev empty : Ranges
empty = record {
  nr = 0;
  rlo = λ i. 0;
  rhi = λ i. 0;
  rcid = λ i. 0;
  rneg = λ i. false;
  cname = λ i. none;
  has_unicode = false;
}

-- No name is known, and no letter has another case.
abbrev unknown : List ℕ → ℕ → Bool
unknown name cp = false

abbrev plain : ℕ → ℕ
plain cp = cp

abbrev with_a : Ranges
with_a = append_range empty b'a' b'a' 0 false

abbrev with_ac : Ranges
with_ac = append_range with_a b'c' b'c' 0 false

-- The class [acb]: 'b' is merged with 'a', and the memmove takes the low end of 'c' to where the high end is
-- still that of 'a'; then 'c' is in the class no more.
lost_letter :
    (add_range empty b'a' b'a' 0 false ≡ some with_a)
    × (in_class unknown plain with_ac b'c' 0 false ≡ true)
    × (elim (add_range with_ac b'b' b'b' 0 false) as (λ _. Type 0) [
      | none ↦ ⊥
      | some m ↦ in_class unknown plain m b'c' 0 false ≡ false
    ])
unfolding add_range merge_loop passes shift_low in_class member_loop entry_has
lost_letter = (refl, refl, refl)

utf8_next-wcrtomb_run :
    (s : List ℕ) × (wcrtomb 0x20AC ≡ some s) × (utf8_next (s ++ b'x' ∷ []) ≡ (0x20AC, b'x' ∷ []))
utf8_next-wcrtomb_run = utf8_next-wcrtomb 0x20AC (b'x' ∷ []) (inl (omega arith))

add_range_lem_example :
    (m' : Ranges) × (add_range with_a b'b' b'd' 0 false ≡ some m')
    × Joins unknown plain with_a m' b'b' b'd' 0
add_range_lem_example =
    add_range_lem unknown plain with_a b'b' b'd' 0 (omega arith) (omega arith) (omega arith)
      (λ j lt. (ground arith, ground arith)) (λ j lt e. ground arith) (λ j lt. absurd (omega arith))
      (λ j e h. ground arith)
