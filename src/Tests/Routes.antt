-- ===== src/Tests/Routes.antt =====
-- Runs of the routes of include/transit/route.h.
use jaclibc.Base.{ℕ, ◌+◌, ◌≡◌, ◌≤◌, ◌<◌, ◌⊎◌, inr, ℤ, pos, List, [], ◌∷◌, some, none, false, refl}
use jaclibc.Route.{Signs, Text, route_match}
use jaclibc.Route.Spec.{Fits}
use jaclibc.Route.Decide.{store, route_match_lem}
use jaclibc.Route.Table.{Route, Context, match_max, route_forward}
use jaclibc.Route.Table.Laws.{Outcome, route_forward_lem}

abbrev signs : Signs
signs = record { any = b'*'; div = b'/'; esc = b'!' }

-- "/*" with a set of one letter does not match that letter: "/*[a]" and "/a".
letter_set :
    route_match signs (b'/' ∷ b'a' ∷ []) (b'/' ∷ b'*' ∷ b'[' ∷ b'a' ∷ b']' ∷ []) 16 ≡ some none
unfolding route_match
letter_set = refl

-- A set with a range works: "/*[a-c]" and "/b".
range_set :
    route_match signs (b'/' ∷ b'b' ∷ []) (b'/' ∷ b'*' ∷ b'[' ∷ b'a' ∷ b'-' ∷ b'c' ∷ b']' ∷ []) 16
    ≡ some (some ((b'/' ∷ b'b' ∷ []) ∷ (b'b' ∷ []) ∷ []))
unfolding route_match
range_set = refl

-- "{2,}" asks for two at least and stops at the first: "/*[a-c]{2,}" and "/bb".
open_count :
    route_match signs
      (b'/' ∷ b'b' ∷ b'b' ∷ [])
      (b'/' ∷ b'*' ∷ b'[' ∷ b'a' ∷ b'-' ∷ b'c' ∷ b']' ∷ b'{' ∷ b'2' ∷ b',' ∷ b'}' ∷ [])
      16
    ≡ some none
unfolding route_match
open_count = refl

-- "/u/*" and "/u/x".
abbrev user_pattern : Text
user_pattern = b'/' ∷ b'u' ∷ b'/' ∷ b'*' ∷ []

abbrev user_path : Text
user_path = b'/' ∷ b'u' ∷ b'/' ∷ b'x' ∷ []

route_match_lem_example :
    ((0 < 16)
      × ((cs : List Text) × Fits signs user_pattern user_path cs
          × (route_match signs user_path user_pattern 16
              ≡ some (some (store 16 (user_path ∷ []) cs)))))
    ⊎ ((0 < 16)
        × (route_match signs user_path user_pattern 16 ≡ some none)
        × ((cs : List Text) → ¬ Fits signs user_pattern user_path cs))
    ⊎ ((◌≡◌ {A = ℕ} 16 0) × (route_match signs user_path user_pattern 16 ≡ some none))
route_match_lem_example = route_match_lem signs user_path user_pattern 16 refl

-- A handler is a number, which it answers; it counts its runs.
abbrev count_run : ℕ → List Text → Context ℕ → ℤ × Context ℕ
count_run h argv c = (pos h, record c { state = c.state + 1 })

abbrev two_routes : List (Route ℕ)
two_routes =
    record { pattern = user_pattern; handler = 0 }
    ∷ record { pattern = user_pattern; handler = 7 }
    ∷ []

user_match :
    route_match signs user_path user_pattern match_max ≡ some (some (user_path ∷ (b'x' ∷ []) ∷ []))
unfolding route_match
user_match = refl

abbrev matching : List (ℕ × List Text)
matching = (0, user_path ∷ (b'x' ∷ []) ∷ []) ∷ (7, user_path ∷ (b'x' ∷ []) ∷ []) ∷ []

abbrev first_context : Context ℕ
first_context = record { hops = 0; state = 0 }

abbrev second_context : Context ℕ
second_context = record { hops = 1; state = 0 }

route_forward_lem_example :
    ((match_max < 0)
      × (route_forward count_run signs two_routes user_path first_context
          ≡ some (pos 0, second_context)))
    ⊎ ((0 ≤ match_max)
        × Outcome count_run signs matching false second_context
            (route_forward count_run signs two_routes user_path first_context))
route_forward_lem_example =
    route_forward_lem count_run signs two_routes user_path matching first_context (
      (7, user_path ∷ (b'x' ∷ []) ∷ []) ∷ [],
      ([], refl, inr (user_path ∷ (b'x' ∷ []) ∷ [], user_match, refl)),
      inr (user_path ∷ (b'x' ∷ []) ∷ [], user_match, refl),
    )
