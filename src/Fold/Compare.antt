-- ===== src/Fold/Compare.antt =====
-- strcasecmp and strncasecmp: which strings they find equal.
use jaclibc.Base.{
  ℕ, zero, suc, ◌+◌, ◌<◌, ◌≡◌, ◌≢◌, ◌↔◌, List, [], ◌∷◌, some, pos, sub_ℕ, length, arith, refl, map,
  take,
}
use jaclibc.Memory.{Memory, Ptr, IsString}
use jaclibc.Ctype.{tolower}
use jaclibc.Fold.{fold_difference, fold_loop, strcasecmp, fold_bounded, strncasecmp}

-- Equal where upper case is taken for lower case.
abbrev pub SameFolded : List ℕ → List ℕ → Type 0
SameFolded cs ds = map tolower cs ≡ map tolower ds

sub_ℕ-zero : (a b : ℕ) → (sub_ℕ a b ≡ pos 0) ↔ (a ≡ b)
sub_ℕ-zero a b = ground arith

tolower-nul : (c : ℕ) → (tolower c ≡ 0) ↔ (c ≡ 0)
unfolding tolower
tolower-nul c = ground arith

fold_bounded_lem :
    (n : ℕ) (cs ds : List ℕ) (m : Memory) (a b : Ptr)
    → IsString m a cs
    → IsString m b ds
    → (fold_bounded n m a b ≡ pos 0) ↔ SameFolded (take n cs) (take n ds)
unfolding fold_bounded fold_difference
fold_bounded_lem zero cs ds m a b h k = (λ e. refl, λ e. refl)
fold_bounded_lem (suc n) [] [] m a b h k =
    ground (arith, sub_ℕ-zero (tolower (m a)) (tolower (m b)), tolower-nul (m a), tolower-nul (m b))
fold_bounded_lem (suc n) [] (d ∷ ds) m a b h k = ground (
  arith,
  k.0,
  k.1,
  sub_ℕ-zero (tolower (m a)) (tolower (m b)),
  tolower-nul (m a),
  tolower-nul (m b),
)
fold_bounded_lem (suc n) (c ∷ cs) [] m a b h k = ground (
  arith,
  h.0,
  h.1,
  sub_ℕ-zero (tolower (m a)) (tolower (m b)),
  tolower-nul (m a),
  tolower-nul (m b),
)
fold_bounded_lem (suc n) (c ∷ cs) (d ∷ ds) m a b h k = ground (
  arith,
  h.0,
  h.1,
  k.0,
  k.1,
  sub_ℕ-zero (tolower (m a)) (tolower (m b)),
  fold_bounded_lem n cs ds m (a + 1) (b + 1) h.2 k.2,
)

fold_loop_lem :
    (f : ℕ) (cs ds : List ℕ) (m : Memory) (a b : Ptr)
    → length cs < f
    → IsString m a cs
    → IsString m b ds
    → (fold_loop f m a b ≡ some (pos 0)) ↔ SameFolded cs ds
unfolding fold_loop fold_difference
fold_loop_lem zero cs ds m a b lt h k = absurd (omega arith)
fold_loop_lem (suc f) [] [] m a b lt h k =
    ground (arith, sub_ℕ-zero (tolower (m a)) (tolower (m b)), tolower-nul (m a), tolower-nul (m b))
fold_loop_lem (suc f) [] (d ∷ ds) m a b lt h k = ground (
  arith,
  k.0,
  k.1,
  sub_ℕ-zero (tolower (m a)) (tolower (m b)),
  tolower-nul (m a),
  tolower-nul (m b),
)
fold_loop_lem (suc f) (c ∷ cs) [] m a b lt h k = ground (
  arith,
  h.0,
  h.1,
  sub_ℕ-zero (tolower (m a)) (tolower (m b)),
  tolower-nul (m a),
  tolower-nul (m b),
)
fold_loop_lem (suc f) (c ∷ cs) (d ∷ ds) m a b lt h k = ground (
  arith,
  h.0,
  h.1,
  k.0,
  k.1,
  sub_ℕ-zero (tolower (m a)) (tolower (m b)),
  fold_loop_lem f cs ds m (a + 1) (b + 1) (omega arith) h.2 k.2,
)

-- strcasecmp gives 0 exactly for strings that are equal where upper case is taken for lower case, and
-- strncasecmp exactly where their first n bytes at most are. No pointer is NULL, and one round for
-- each byte of the first string and one for its NUL are enough fuel.
pub strcasecmp_lem :
    (f n : ℕ) (cs ds : List ℕ) (m : Memory) (a b : Ptr)
    → a ≢ 0
    → b ≢ 0
    → length cs < f
    → IsString m a cs
    → IsString m b ds
    → ((strcasecmp f m a b ≡ some (pos 0)) ↔ SameFolded cs ds)
      × ((strncasecmp m a b n ≡ pos 0) ↔ SameFolded (take n cs) (take n ds))
unfolding strcasecmp strncasecmp
strcasecmp_lem f zero cs ds m a b ha hb lt h k =
    (ground (arith, fold_loop_lem f cs ds m a b lt h k), (λ e. refl, λ e. refl))
strcasecmp_lem f (suc n) cs ds m a b ha hb lt h k = (
  ground (arith, fold_loop_lem f cs ds m a b lt h k),
  ground (arith, fold_bounded_lem (suc n) cs ds m a b h k),
)
