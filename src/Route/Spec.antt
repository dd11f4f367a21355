-- ===== src/Route/Spec.antt =====
-- Which paths a pattern with no sets is meant for.
use jaclibc.Base.{
  ℕ, ◌≡◌, ◌≢◌, Bool, true, not, ◌&&◌, ◌||◌, ◌==◌, if◌then◌else◌, List, [], ◌∷◌, arith, refl, ==_iff,
  ap, sym, subst, ◌∙◌, if_cases,
}
use jaclibc.Route.{Signs, Text, skip_name}

-- At the end, or in front of a divider.
abbrev pub AtEdge : ℕ → Text → Type 0
AtEdge div [] = Unit
AtEdge div (c ∷ h) = c ≡ div

-- A name with no divider in it, then the rest.
abbrev pub IsName : ℕ → Text → Text → Text → Type 0
IsName div [] rest h = (h ≡ rest) × AtEdge div rest
IsName div (c ∷ name) rest h = (c ≢ div) × ((t : Text) × (h ≡ c ∷ t) × IsName div name rest t)

-- The path and what the wildcards take, each from where it begins to the end of the path.
pub data Fits (s : Signs) : Text → Text → List Text → Type 0 where
  ends : Fits s [] [] []
  plain :
      {p h : Text} {cs : List Text} (c d : ℕ)
      → c ≢ s.any
      → c ≢ s.esc
      → c ≡ d
      → Fits s p h cs
      → Fits s (c ∷ p) (d ∷ h) cs
  escaped :
      {p h : Text} {cs : List Text} (c d x : ℕ)
      → c ≢ s.any
      → c ≡ s.esc
      → d ≡ x
      → Fits s p h cs
      → Fits s (c ∷ d ∷ p) (x ∷ h) cs
  one_name :
      {p h : Text} {cs : List Text} (c : ℕ)
      → c ≡ s.any
      → p ≢ s.any ∷ []
      → (name rest : Text) → IsName s.div name rest h
      → Fits s p rest cs
      → Fits s (c ∷ p) h (h ∷ cs)
  all_names : {h : Text} (c d : ℕ) → c ≡ s.any → d ≡ s.any → Fits s (c ∷ d ∷ []) h (h ∷ [])

-- No wildcard has a set, and a byte follows each escape.
abbrev pub has_no_sets : Signs → Text → Bool
has_no_sets s [] = true
has_no_sets s (c ∷ []) = c == s.any || not (c == s.esc)
has_no_sets s (c ∷ d ∷ p) =
    let after_two = has_no_sets s p in
    let after_one = has_no_sets s (d ∷ p) in
    if c == s.any then not (d == b'[') && after_one else if c == s.esc then after_two else after_one

-- The name that skip_name skips.
pub skip_name-IsName : (div : ℕ) (h : Text) → (name : Text) × IsName div name (skip_name div h) h
unfolding skip_name
skip_name-IsName div [] = ([], (refl, tt))
skip_name-IsName div (c ∷ h) =
    let (name, rest) = skip_name-IsName div h in
    if_cases (λ (r : Text). (n : Text) × IsName div n r (c ∷ h)) (c == div) _ _
      (λ e. ([], (refl, (==_iff c div).0 e)))
      (λ ne. (c ∷ name, ((λ e. ground (arith, e, ne)), (h, refl, rest))))

pub IsName-skip_name :
    (div : ℕ) (name rest h : Text) → IsName div name rest h → skip_name div h ≡ rest
unfolding skip_name
IsName-skip_name div [] [] h (e, edge) = ap (skip_name div) e
IsName-skip_name div [] (c ∷ rest) h (e, edge) = ap (skip_name div) e ∙ ground (arith, edge)
IsName-skip_name div (c ∷ name) rest h (ne, (t, e, more)) =
    let ih = IsName-skip_name div name rest t more in ap (skip_name div) e ∙ ground (arith, ne, ih)

pub Fits-plain :
    (s : Signs) (c : ℕ) (p h : Text) (cs : List Text)
    → c ≢ s.any
    → c ≢ s.esc
    → Fits s (c ∷ p) h cs
    → (t : Text) × (h ≡ c ∷ t) × Fits s p t cs
Fits-plain s c p (d ∷ t) cs na ne (plain _ _ na' ne' e w) = (t, ap (λ (x : ℕ). x ∷ t) (sym e), w)
Fits-plain s c p h cs na ne (escaped _ d x na' e e' w) = absurd (ne e)
Fits-plain s c p h cs na ne (one_name _ e p_ne name rest n w) = absurd (na e)
Fits-plain s c p h cs na ne (all_names _ d e e') = absurd (na e)

pub Fits-escaped :
    (s : Signs) (c d : ℕ) (p h : Text) (cs : List Text)
    → c ≢ s.any
    → c ≡ s.esc
    → Fits s (c ∷ d ∷ p) h cs
    → (t : Text) × (h ≡ d ∷ t) × Fits s p t cs
Fits-escaped s c d p h cs na e (plain _ _ na' ne' e' w) = absurd (ne' e)
Fits-escaped s c d p (x ∷ t) cs na e (escaped _ _ _ na' e' same w) =
    (t, ap (λ (y : ℕ). y ∷ t) (sym same), w)
Fits-escaped s c d p h cs na e (one_name _ e' p_ne name rest n w) = absurd (na e')
Fits-escaped s c d p h cs na e (all_names _ _ e' e2) = absurd (na e')

pub Fits-name :
    (s : Signs) (c : ℕ) (p h : Text) (cs : List Text)
    → c ≡ s.any
    → p ≢ s.any ∷ []
    → Fits s (c ∷ p) h cs
    → (cs' : List Text) × (cs ≡ h ∷ cs') × Fits s p (skip_name s.div h) cs'
Fits-name s c p h cs a ne (plain _ _ na ne' e w) = absurd (na a)
Fits-name s c p h cs a ne (escaped _ d x na e e' w) = absurd (na a)
Fits-name s c p h (_ ∷ cs) a ne (one_name _ e p_ne name rest n w) =
    (cs, refl, subst (λ (t : Text). Fits s p t cs) (sym (IsName-skip_name s.div name rest h n)) w)
Fits-name s c p h cs a ne (all_names _ d e e') = absurd (ne (ap (λ (x : ℕ). x ∷ []) e'))
