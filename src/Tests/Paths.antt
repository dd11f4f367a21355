-- ===== src/Tests/Paths.antt =====
-- Cutting the path "a/b/" of include/libgen.h, and the handlers of include/core/stdlib.h.
use jaclibc.Base.{
  ℕ, zero, suc, ◌+◌, ◌≤◌, ◌<◌, ◌≡◌, inr, List, [], ◌∷◌, some, pos, get_or, arith, refl, sym, subst,
}
use jaclibc.Exit.{no_handlers, atexit, run_handlers}
use jaclibc.Exit.Order.{registered, run_handlers-registered}
use jaclibc.Path.{slash, root_name, splitname, basename, dirname}
use jaclibc.Path.Split.{IsName, splitname_lem, splitname_root}

abbrev nested_path : List ℕ
nested_path = 97 ∷ 47 ∷ 98 ∷ 47 ∷ []

nested_path-IsName : IsName nested_path 1 2 3
nested_path-IsName = record {
  not_empty = omega arith;
  within = omega arith;
  behind = λ i lo hi. subst (λ (k : ℕ). get_or nested_path k 0 ≡ slash) (at 3 i lo hi) refl;
  name = λ i lo hi e.
      absurd
        (ground (arith, subst (λ (k : ℕ). get_or nested_path k 0 ≡ slash) (sym (at 2 i lo hi)) e));
  before = λ i lo hi. subst (λ (k : ℕ). get_or nested_path k 0 ≡ slash) (at 1 i lo hi) refl;
  parted = inr (omega arith);
  dir_clean = inr (λ e. ground (arith, e));
}
  where
    at : (k i : ℕ) → k ≤ i → i < k + 1 → k ≡ i
    at k i lo hi = omega arith

splitname_lem_example :
    (basename (some nested_path) ≡ 98 ∷ []) × (dirname (some nested_path) ≡ 97 ∷ [])
splitname_lem_example = splitname_lem nested_path 1 2 3 nested_path-IsName

splitname_root_run : splitname (47 ∷ 47 ∷ []) ≡ record { dir = root_name; base = root_name }
splitname_root_run = splitname_root (47 ∷ 47 ∷ []) all
  where
    all : (i : ℕ) → i < 2 → get_or (47 ∷ 47 ∷ []) i 0 ≡ slash
    all zero lt = refl
    all (suc zero) lt = refl
    all (suc (suc i)) lt = absurd (omega arith)

run_handlers-registered_example :
    (run_handlers {F = ℕ} (registered no_handlers (1 ∷ 2 ∷ [])) ≡ 2 ∷ 1 ∷ [])
    × ((atexit {F = ℕ} (registered no_handlers (1 ∷ 2 ∷ [])) (some 3)).0 ≡ pos 0)
run_handlers-registered_example = run_handlers-registered (1 ∷ 2 ∷ []) 3
