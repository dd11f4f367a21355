-- ===== src/Str/Bound.antt =====
-- strncmp: where it says that strings are equal, and what it does with strings shorter than the bound.
use jaclibc.Base.{
  ℕ, zero, suc, ◌+◌, ◌<◌, ◌≡◌, ◌≢◌, ◌↔◌, List, [], ◌∷◌, Bool, true, false, length, arith, pos, refl,
}
use jaclibc.Memory.{Memory, Ptr, IsString}
use jaclibc.Str.{char_lt, compare_bounded, strncmp}

-- Both strings have n bytes at least, and the same n bytes come first.
abbrev pub SamePrefix : ℕ → List ℕ → List ℕ → Type 0
SamePrefix zero cs ds = Unit
SamePrefix (suc n) [] ds = ⊥
SamePrefix (suc n) (c ∷ cs) [] = ⊥
SamePrefix (suc n) (c ∷ cs) (d ∷ ds) = (c ≡ d) × SamePrefix n cs ds

compare_bounded_lem :
    (signed : Bool) (cs ds : List ℕ) (left i : ℕ) (m : Memory) (a b p q : ℕ)
    → p ≡ a + i
    → q ≡ b + i
    → IsString m p cs
    → IsString m q ds
    → (compare_bounded signed left i m a b ≡ pos 0) ↔ SamePrefix left cs ds
unfolding compare_bounded
compare_bounded_lem signed cs ds zero i m a b p q ep eq ha hb = (λ e. tt, λ h. refl)
compare_bounded_lem signed [] ds (suc left) i m a b p q ep eq ha hb =
    (λ e. ground arith, λ h. absurd h)
compare_bounded_lem signed (c ∷ cs) [] (suc left) i m a b p q ep eq ha hb =
    (λ e. ground (arith, ha.1), λ h. absurd h)
compare_bounded_lem signed (c ∷ cs) (d ∷ ds) (suc left) i m a b p q ep eq ha hb =
    let rest =
      compare_bounded_lem signed cs ds left (i + 1) m a b (p + 1) (q + 1) (omega arith)
        (omega arith) ha.2 hb.2 in
    (
      λ e. (ground (arith, ha.1), rest.0 (ground (arith, ha.1))),
      λ h. ground (arith, ha.1, rest.1 h.1),
    )

-- strncmp gives 0 exactly where both strings are at least n bytes long and begin with the same
-- n bytes. No pointer is NULL.
pub strncmp_lem :
    (signed : Bool) (cs ds : List ℕ) (m : Memory) (a b : Ptr) (n : ℕ)
    → a ≢ 0
    → b ≢ 0
    → IsString m a cs
    → IsString m b ds
    → (strncmp signed m a b n ≡ pos 0) ↔ SamePrefix n cs ds
unfolding strncmp
strncmp_lem signed cs ds m a b n na nb ha hb =
    let (sound, complete) =
      compare_bounded_lem signed cs ds n 0 m a b a b (omega arith) (omega arith) ha hb in
    (λ e. sound (ground arith), λ h. ground (arith, complete h))

compare_bounded-short :
    (signed : Bool) (cs : List ℕ) (left i : ℕ) (m : Memory) (a b p q : ℕ)
    → p ≡ a + i
    → q ≡ b + i
    → IsString m p cs
    → IsString m q cs
    → length cs < left
    → compare_bounded signed left i m a b ≡ pos 1
unfolding compare_bounded char_lt
compare_bounded-short signed cs zero i m a b p q ep eq ha hb lt = absurd (omega arith)
compare_bounded-short true [] (suc left) i m a b p q ep eq ha hb lt = ground arith
compare_bounded-short false [] (suc left) i m a b p q ep eq ha hb lt = ground arith
compare_bounded-short signed (c ∷ cs) (suc left) i m a b p q ep eq ha hb lt = ground (
  arith,
  ha.1,
  compare_bounded-short signed cs left (i + 1) m a b (p + 1) (q + 1) (omega arith) (omega arith)
      ha.2 hb.2 (omega arith),
)

-- For two copies of one string that is shorter than the bound strncmp gives 1, not 0: its last line
-- has no case for two NULs. No pointer is NULL.
pub strncmp_short :
    (signed : Bool) (cs : List ℕ) (m : Memory) (a b : Ptr) (n : ℕ)
    → a ≢ 0
    → b ≢ 0
    → IsString m a cs
    → IsString m b cs
    → length cs < n
    → strncmp signed m a b n ≡ pos 1
unfolding strncmp
strncmp_short signed cs m a b n na nb ha hb lt =
    ground
      (arith, compare_bounded-short signed cs n 0 m a b a b (omega arith) (omega arith) ha hb lt)
