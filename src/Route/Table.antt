-- ===== src/Route/Table.antt =====
-- include/transit/route.h: the table of a router, and the dispatch of a path to its handlers. A handler's run is
-- a parameter: it takes the handler, its arguments and the state of the context, and gives its answer
-- and the state that it leaves.
pub mod Laws
use jaclibc.Base.{
  ℕ, zero, suc, ◌+◌, Bool, true, false, not, ◌&&◌, ◌||◌, ◌==◌, ltb, if◌then◌else◌, ℤ, pos, negsuc,
  Option, none, some, List, [], ◌∷◌, ◌++◌, length,
}
use jaclibc.Route.{Signs, Text, route_match}

-- ROUTE_MATCH_MAX
abbrev pub match_max : ℕ
match_max = 16

-- ROUTE_FORWARD_MAX
abbrev pub forward_max : ℕ
forward_max = 16

pub record Route {ℓ} (H : Type ℓ) : Type ℓ where
  pub pattern : Text
  pub handler : H

module _ {ℓ} {H : Type ℓ} where
  -- The routes in the order of their registration; `memory` says whether calloc gives memory, and no
  -- argument is NULL.
  unfoldable pub route_add : Bool → List (Route H) → Text → H → ℤ × List (Route H)
  route_add memory routes pattern handler =
      if memory
      then (pos 0, routes ++ record { pattern = pattern; handler = handler } ∷ [])
      else (negsuc 0, routes)

  -- strcmp(cur->pattern, pattern) == 0 && cur->handler == handler, which `same` decides.
  unfoldable pub route_remove : (Route H → Bool) → List (Route H) → ℕ × List (Route H)
  route_remove same [] = (0, [])
  route_remove same (r ∷ routes) =
      let (deleted, rest) = route_remove same routes in
      if same r then (deleted + 1, rest) else (deleted, r ∷ rest)

-- struct router, less what the callers keep in it.
pub record Router {ℓ} (H : Type ℓ) : Type ℓ where
  pub spec : Signs
  pub routes : List (Route H)

-- `memory` says whether calloc gives memory.
unfoldable pub router_create {ℓ} : {H : Type ℓ} → Bool → Signs → Option (Router H)
router_create memory spec =
    if spec.any == 0 || spec.div == 0 || spec.esc == 0
    then none
    else if memory
    then some (record { spec = spec; routes = [] })
    else none

-- The context: hops, and what else the handlers change.
pub record Context {ℓ} (S : Type ℓ) : Type ℓ where
  pub hops : ℕ
  pub state : S

module _ {ℓ κ} {H : Type ℓ} {S : Type κ} (run : H → List Text → Context S → ℤ × Context S)
    (signs : Signs) where
  -- while (cur) { ... } and the line behind it. `none` is outside of a string.
  unfoldable pub forward_loop : List (Route H) → Text → Bool → Context S → Option (ℤ × Context S)
  forward_loop [] path matched c = some (if matched then pos 0 else negsuc 0, c)
  forward_loop (r ∷ routes) path matched c = elim (route_match signs path r.pattern match_max) [
    | none ↦ none
    | some none ↦ forward_loop routes path matched c
    | some (some argv) ↦
        let (result, c') = run r.handler argv c in
        elim result [ pos zero ↦ forward_loop routes path true c' | other ↦ some (other, c') ]
  ]

  unfoldable pub route_forward : List (Route H) → Text → Context S → Option (ℤ × Context S)
  unfolding forward_loop
  route_forward routes path c =
      let c' : Context S = record c { hops = c.hops + 1 } in
      if ltb forward_max c.hops then some (pos 0, c') else forward_loop routes path false c'

  unfoldable pub route_dispatch : List (Route H) → Text → S → Option (ℤ × Context S)
  unfolding route_forward
  route_dispatch routes path state = route_forward routes path (record { hops = 0; state = state })
