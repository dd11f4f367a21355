-- ===== src/Regex/Matcher/Gate.antt =====
-- The gate in front of matchexec of include/core/match.h, against what it means that a literal stands at an offset.
use Prim.{Unit, tt}
use jaclibc.Base.{
  ℕ, zero, suc, ◌+◌, ◌≤◌, ◌<◌, ◌≡◌, ◌⊎◌, ◌==◌, Bool, true, if_cases, Option, none, some, List, [],
  ◌∷◌, drop, refl, arith,
}
use jaclibc.Regex.Matcher.Exec.{lower_byte, has_literal, gate_loop, matchgate}

-- The bytes are equal, or where case is ignored an ASCII letter in its two cases.
abbrev pub SameByte : Bool → ℕ → ℕ → Type 0
SameByte ic a b =
    (a ≡ b)
    ⊎ ((ic ≡ true) × (65 ≤ a) × (a ≤ 90) × (b ≡ a + 32))
    ⊎ ((ic ≡ true) × (65 ≤ b) × (b ≤ 90) × (a ≡ b + 32))

-- The text begins with the literal.
abbrev pub Starts : Bool → List ℕ → List ℕ → Type 0
Starts ic [] s = Unit
Starts ic (a ∷ lit) [] = ⊥
Starts ic (a ∷ lit) (b ∷ s) = SameByte ic a b × Starts ic lit s

-- The first offset of the literal in a text whose own offset is base, or none where there is no one.
abbrev pub IsFirst : Bool → List ℕ → List ℕ → ℕ → Option ℕ → Type 0
IsFirst ic lit s base none = (q : ℕ) → ¬ Starts ic lit (drop q s)
IsFirst ic lit s base (some p) =
    (d : ℕ) × (p ≡ base + d)
    × Starts ic lit (drop d s)
    × ((q : ℕ) → q < d → ¬ Starts ic lit (drop q s))

same_byte : (ic : Bool) (a b : ℕ) → (lower_byte ic a == lower_byte ic b) ≡ true → SameByte ic a b
unfolding lower_byte
same_byte ic a b e = ground (arith, e)

byte_same : (ic : Bool) (a b : ℕ) → SameByte ic a b → (lower_byte ic a == lower_byte ic b) ≡ true
unfolding lower_byte
byte_same ic a b same = ground (arith, same)

has_literal-Starts : (ic : Bool) (lit s : List ℕ) → has_literal ic lit s ≡ true → Starts ic lit s
unfolding has_literal
has_literal-Starts ic [] s e = tt
has_literal-Starts ic (a ∷ lit) [] e = absurd (ground (arith, e))
has_literal-Starts ic (a ∷ lit) (b ∷ s) e =
    (same_byte ic a b (ground (arith, e)), has_literal-Starts ic lit s (ground (arith, e)))

Starts-has_literal : (ic : Bool) (lit s : List ℕ) → Starts ic lit s → has_literal ic lit s ≡ true
unfolding has_literal
Starts-has_literal ic [] s h = refl
Starts-has_literal ic (a ∷ lit) [] h = absurd h
Starts-has_literal ic (a ∷ lit) (b ∷ s) (h, more) =
    ground (arith, byte_same ic a b h, Starts-has_literal ic lit s more)

-- With one byte more in front that does not start the literal.
IsFirst-cons :
    (ic : Bool) (lit : List ℕ) (b : ℕ) (s : List ℕ) (base : ℕ) (o : Option ℕ)
    → ¬ Starts ic lit (b ∷ s)
    → IsFirst ic lit s (base + 1) o
    → IsFirst ic lit (b ∷ s) base o
IsFirst-cons ic lit b s base none lacks rest = elim [ zero ↦ lacks | suc q ↦ rest q ]
IsFirst-cons ic lit b s base (some p) lacks (d, eq, has, below) =
    (suc d, omega arith, has, elim [ zero ↦ λ lt. lacks | suc q ↦ λ lt. below q (omega arith) ])

nothing-Starts : (ic : Bool) (a : ℕ) (lit : List ℕ) (q : ℕ) → ¬ Starts ic (a ∷ lit) (drop q [])
nothing-Starts ic a lit zero h = h
nothing-Starts ic a lit (suc q) h = h

gate_loop_lem :
    (ic : Bool) (a : ℕ) (lit s : List ℕ) (p : ℕ)
    → IsFirst ic (a ∷ lit) s p (gate_loop ic (a ∷ lit) s p)
unfolding gate_loop
gate_loop_lem ic a lit [] p = λ q. nothing-Starts ic a lit q
gate_loop_lem ic a lit (b ∷ s) p =
    if_cases (IsFirst ic (a ∷ lit) (b ∷ s) p) (has_literal ic (a ∷ lit) (b ∷ s)) _ _
      (λ has.
        (0, omega arith, has_literal-Starts ic (a ∷ lit) (b ∷ s) has, λ q lt. absurd (omega arith)))
      (λ lacks.
        IsFirst-cons ic (a ∷ lit) b s p _
          (λ h. absurd (ground (arith, lacks, Starts-has_literal ic (a ∷ lit) (b ∷ s) h)))
          (gate_loop_lem ic a lit s (p + 1)))

-- matchgate gives the first offset at which the text has the literal, letters of ASCII in either case where
-- case is ignored, and no offset where the text has it nowhere.
pub matchgate_lem : (ic : Bool) (lit s : List ℕ) → IsFirst ic lit s 0 (matchgate ic lit s)
unfolding matchgate
matchgate_lem ic [] s = (0, refl, tt, λ q lt. absurd (omega arith))
matchgate_lem ic (a ∷ lit) s = gate_loop_lem ic a lit s 0
