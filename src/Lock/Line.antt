-- ===== src/Lock/Line.antt =====
-- The line of the threads in the lock, as their tickets order them.
use jaclibc.Base.{
  ℕ, suc, ◌+◌, ◌%◌, ◌<◌, ◌≡◌, ◌⊎◌, inl, inr, List, [], ◌∷◌, ◌++◌, length, arith, refl, sym, ap, ◌∙◌,
  ℕ_discrete,
}
use jaclibc.Alloc.Lists.{In}
use jaclibc.Lock.{System, Pc, holding, waiting, outside, wrap}
use jaclibc.Lock.Counting.{busy}

abbrev pub AllDistinct : List ℕ → Type 0
AllDistinct [] = Unit
AllDistinct (x ∷ xs) = (¬ In x xs) × AllDistinct xs

-- The threads wait with the tickets from t on.
abbrev pub Tail : (ℕ → Pc) → ℕ → List ℕ → Type 0
Tail pc t [] = Unit
Tail pc t (i ∷ q) = (pc i ≡ waiting (t % wrap)) × Tail pc (t + 1) q

-- The same, but the first one may hold the lock.
abbrev pub Front : (ℕ → Pc) → ℕ → List ℕ → Type 0
Front pc t [] = Unit
Front pc t (i ∷ q) = ((pc i ≡ waiting (t % wrap)) ⊎ (pc i ≡ holding)) × Tail pc (t + 1) q

-- The threads in the lock stand in this line, the others are outside.
pub record IsLine (n : ℕ) (s : System) (q : List ℕ) : Type 0 where
  pub base : ℕ
  pub owner_at : s.lock.owner ≡ base % wrap
  pub next_at : s.lock.next ≡ (base + length q) % wrap
  pub line : Front s.pc base q
  pub distinct : AllDistinct q
  pub inside : (i : ℕ) → In i q → i < n
  pub out : (i : ℕ) → ¬ In i q → s.pc i ≡ outside
  pub count : busy s.pc n ≡ length q

pub dec_in : (i : ℕ) (q : List ℕ) → Dec (In i q)
dec_in i [] = no (λ m. m)
dec_in i (x ∷ q) = elim (ℕ_discrete i x) [
  | yes e ↦ yes (inl e)
  | no ne ↦ elim (dec_in i q) [
    | yes m ↦ yes (inr m)
    | no out ↦ no (λ m. elim m [ inl e ↦ ne e | inr r ↦ out r ])
  ]
]

pub In-append : (i x : ℕ) (q : List ℕ) → In i (q ++ x ∷ []) → In i q ⊎ (i ≡ x)
In-append i x [] (inl e) = inr e
In-append i x [] (inr m) = absurd m
In-append i x (y ∷ q) (inl e) = inl (inl e)
In-append i x (y ∷ q) (inr m) = elim (In-append i x q m) [ inl r ↦ inl (inr r) | inr e ↦ inr e ]

pub In-append_left : (i x : ℕ) (q : List ℕ) → In i q → In i (q ++ x ∷ [])
In-append_left i x [] m = absurd m
In-append_left i x (y ∷ q) (inl e) = inl e
In-append_left i x (y ∷ q) (inr m) = inr (In-append_left i x q m)

pub In-last : (x : ℕ) (q : List ℕ) → In x (q ++ x ∷ [])
In-last x [] = inl refl
In-last x (y ∷ q) = inr (In-last x q)

pub AllDistinct-append :
    (x : ℕ) (q : List ℕ) → AllDistinct q → (¬ In x q) → AllDistinct (q ++ x ∷ [])
AllDistinct-append x [] d out = ((λ m. m), tt)
AllDistinct-append x (y ∷ q) d out = (
  (λ m. elim (In-append y x q m) [ inl r ↦ d.0 r | inr e ↦ out (inl (sym e)) ]),
  AllDistinct-append x q d.1 (λ m. out (inr m)),
)

pub Tail-frame :
    (pc pc' : ℕ → Pc) (t : ℕ) (q : List ℕ)
    → ((i : ℕ) → In i q → pc' i ≡ pc i)
    → Tail pc t q
    → Tail pc' t q
Tail-frame pc pc' t [] same h = tt
Tail-frame pc pc' t (i ∷ q) same h =
    (same i (inl refl) ∙ h.0, Tail-frame pc pc' (t + 1) q (λ j m. same j (inr m)) h.1)

pub Tail-append :
    (pc : ℕ → Pc) (t i : ℕ) (q : List ℕ)
    → Tail pc t q
    → pc i ≡ waiting ((t + length q) % wrap)
    → Tail pc t (q ++ i ∷ [])
Tail-append pc t i [] h e = (e ∙ ap (λ (k : ℕ). waiting (k % wrap)) (omega arith), tt)
Tail-append pc t i (x ∷ q) h e =
    (h.0, Tail-append pc (t + 1) i q h.1 (e ∙ ap (λ (k : ℕ). waiting (k % wrap)) (omega arith)))

pub Tail-at :
    (pc : ℕ → Pc) (t i : ℕ) (q : List ℕ)
    → Tail pc t q
    → In i q
    → (k : ℕ) × (k < length q) × (pc i ≡ waiting ((t + k) % wrap))
Tail-at pc t i [] h m = absurd m
Tail-at pc t i (x ∷ q) h (inl e) =
    (0, omega arith, ap pc e ∙ h.0 ∙ ap (λ (k : ℕ). waiting (k % wrap)) (omega arith))
Tail-at pc t i (x ∷ q) h (inr m) =
    let (k, lt, at) = Tail-at pc (t + 1) i q h.1 m in
    (suc k, omega arith, at ∙ ap (λ (j : ℕ). waiting (j % wrap)) (omega arith))
