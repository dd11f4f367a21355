-- ===== src/Tests.antt =====
-- Concrete runs of the routines, and the theorems about them applied to concrete inputs.
mod Bytes
mod Reports
mod Sorting
mod Names
mod Numbers
mod Strings
mod Scanning
mod Searching
mod Patterns
mod Allocating
mod Texts
mod Wide
mod Locking
mod Matching
mod Paths
mod Frames
mod Requests
mod Routes
mod Running
use jaclibc.Base.{ℕ, List, [], ◌∷◌, get_or, refl, arith}
use Prim.Native.Nat.{compare}
use jaclibc.Tree.Order.{IsComparison}
use jaclibc.Memory.{Memory, IsString}

-- "ab,c" at 1, "," at 6, "ab" at 8, and zero bytes behind.
abbrev pub sample_memory : Memory
sample_memory q = get_or (0 ∷ 97 ∷ 98 ∷ 44 ∷ 99 ∷ 0 ∷ 44 ∷ 0 ∷ 97 ∷ 98 ∷ 0 ∷ []) q 0

abbrev pub list_text : List ℕ
list_text = 97 ∷ 98 ∷ 44 ∷ 99 ∷ []

abbrev pub comma_text : List ℕ
comma_text = 44 ∷ []

abbrev pub word_text : List ℕ
word_text = 97 ∷ 98 ∷ []

pub list_there : IsString sample_memory 1 list_text
list_there =
    (refl, omega arith, (refl, omega arith, (refl, omega arith, (refl, omega arith, refl))))

pub word_there : IsString sample_memory 8 word_text
word_there = (refl, omega arith, (refl, omega arith, refl))

pub comma_there : IsString sample_memory 6 comma_text
comma_there = (refl, omega arith, refl)

pub compare-IsComparison : IsComparison compare
compare-IsComparison = record {
  self = λ (a : ℕ). ground arith;
  flip = λ (a b : ℕ). ground arith;
  trans = λ (a b c : ℕ). ground arith;
  same = λ (a b c : ℕ). ground arith;
}
