-- ===== src/Exit.antt =====
-- include/core/stdlib.h: the tables of handlers that atexit and at_quick_exit fill and that exit and
-- quick_exit run. A handler is an element of a type; one that registers handlers itself while they
-- run is not modelled.
pub mod Order
use jaclibc.Base.{
  ℕ, zero, suc, ◌+◌, Option, none, some, List, [], ◌∷◌, ℤ, pos, negsuc, replicate, get_or,
}

-- __JACL_ATEXIT_MAX
abbrev pub atexit_max : ℕ
atexit_max = 32

-- A slot that is not used is `none`.
abbrev pub Handlers {ℓ} : Type ℓ → Type ℓ
Handlers F = List (Option F)

abbrev pub no_handlers {ℓ} : {F : Type ℓ} → Handlers F
no_handlers = replicate atexit_max none

module _ {ℓ} {F : Type ℓ} where
  -- The loop of atexit: the result and the table.
  unfoldable pub register : Handlers F → F → ℤ × Handlers F
  register [] func = (negsuc 0, [])
  register (none ∷ slots) func = (pos 0, some func ∷ slots)
  register (some g ∷ slots) func = let (r, slots') = register slots func in (r, some g ∷ slots')

  -- `none` is NULL.
  unfoldable pub atexit : Handlers F → Option F → ℤ × Handlers F
  unfolding register
  atexit slots none = (negsuc 0, slots)
  atexit slots (some func) = register slots func

  -- for (i = MAX - 1; i >= 0; i--): the handlers in the order of their calls.
  unfoldable pub run_loop : ℕ → (ℕ → Option F) → List F
  run_loop zero slots = []
  run_loop (suc i) slots = elim (slots i) [
    | none ↦ run_loop i slots
    | some func ↦ func ∷ run_loop i slots
  ]

  unfoldable pub run_handlers : Handlers F → List F
  unfolding run_loop
  run_handlers slots = run_loop atexit_max (λ i. get_or slots i none)

  -- The tables of quick_exit have the same loops.
  unfoldable pub at_quick_exit : Handlers F → Option F → ℤ × Handlers F
  unfolding atexit
  at_quick_exit = atexit

  unfoldable pub run_quick_handlers : Handlers F → List F
  unfolding run_handlers
  run_quick_handlers = run_handlers
