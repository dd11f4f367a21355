-- ===== src/Linear.antt =====
-- include/search.h: lfind and lsearch on an array of elements. `same` says whether the caller's comparison of the
-- key and an element is 0; `there` says that neither base nor nmemb is NULL.
pub mod Search
use jaclibc.Base.{
  ℕ, zero, suc, ◌+◌, Bool, true, false, not, ◌||◌, ◌==◌, if◌then◌else◌, Option, none, some,
}
use jaclibc.Alloc.{put}

module _ {ℓ} {A : Type ℓ} (same : A → A → Bool) where
  -- for (i = 0; i < *nmemb; i++): `left` is *nmemb - i.
  unfoldable pub lfind_loop : ℕ → ℕ → A → (ℕ → A) → Option ℕ
  lfind_loop zero i key base = none
  lfind_loop (suc left) i key base =
      let rest = lfind_loop left (i + 1) key base in if same key (base i) then some i else rest

  -- The index of the element; `none` is NULL.
  unfoldable pub lfind : Bool → A → (ℕ → A) → ℕ → Option ℕ
  unfolding lfind_loop
  lfind there key base nmemb = if not there || nmemb == 0 then none else lfind_loop nmemb 0 key base

  -- The index, and *nmemb and the array after the call. The array has room for one more element.
  unfoldable pub lsearch : Bool → A → (ℕ → A) → ℕ → Option ℕ × ℕ × (ℕ → A)
  lsearch there key base nmemb = elim (lfind there key base nmemb) [
    | some i ↦ (some i, nmemb, base)
    | none ↦ if not there then (none, nmemb, base) else (some nmemb, nmemb + 1, put base nmemb key)
  ]
