-- ===== src/Http/Texts.antt =====
-- Where a text is cut, and which methods the request line names.
use jaclibc.Base.{
  ℕ, ◌+◌, ◌≡◌, inl, inr, ◌==◌, if◌then◌else◌, none, some, Option-cases, [], ◌∷◌, ◌++◌, refl, arith,
}
use jaclibc.Http.{
  Text, Method, unknown, get, post, put, delete, head, options, patch, connect, cut_at,
  http_parse_method, http_method_str,
}

-- How often c occurs in s.
abbrev pub count_of : ℕ → Text → ℕ
count_of c [] = 0
count_of c (a ∷ s) = if a == c then count_of c s + 1 else count_of c s

pub cut_at-append :
    (c : ℕ) (front behind : Text)
    → count_of c front ≡ 0
    → cut_at c (front ++ c ∷ behind) ≡ some (front, behind)
unfolding cut_at
cut_at-append c [] behind e = ground arith
cut_at-append c (a ∷ front) behind e = ground (arith, cut_at-append c front behind)

pub cut_at-none : (c : ℕ) (s : Text) → cut_at c s ≡ none → count_of c s ≡ 0
unfolding cut_at
cut_at-none c [] e = refl
cut_at-none c (a ∷ s) e = ground (arith, cut_at-none c s)

pub cut_at-absent : (c : ℕ) (s : Text) → count_of c s ≡ 0 → cut_at c s ≡ none
unfolding cut_at
cut_at-absent c [] e = refl
cut_at-absent c (a ∷ s) e = ground (arith, cut_at-absent c s)

pub cut_at-some :
    (c : ℕ) (s front behind : Text)
    → cut_at c s ≡ some (front, behind)
    → (s ≡ front ++ c ∷ behind) × (count_of c front ≡ 0)
unfolding cut_at
cut_at-some c [] front behind e = ground arith
cut_at-some c (a ∷ s) front behind e = elim (Option-cases (cut_at c s)) [
  | inl n ↦ ground (arith, n)
  | inr ((f, b), h) ↦ ground (arith, h, cut_at-some c s f b h)
]

pub count_of-append : (c : ℕ) (s t : Text) → count_of c (s ++ t) ≡ count_of c s + count_of c t
count_of-append c [] t = omega arith
count_of-append c (a ∷ s) t = ground (arith, count_of-append c s t)

pub parse_method-str : (m : Method) → http_parse_method (http_method_str m) ≡ m
unfolding http_parse_method http_method_str
parse_method-str get = refl
parse_method-str post = refl
parse_method-str put = refl
parse_method-str delete = refl
parse_method-str head = refl
parse_method-str options = refl
parse_method-str patch = refl
parse_method-str connect = refl
parse_method-str unknown = refl

pub method_str-blank : (m : Method) → count_of b' ' (http_method_str m) ≡ 0
unfolding http_method_str
method_str-blank get = refl
method_str-blank post = refl
method_str-blank put = refl
method_str-blank delete = refl
method_str-blank head = refl
method_str-blank options = refl
method_str-blank patch = refl
method_str-blank connect = refl
method_str-blank unknown = refl
