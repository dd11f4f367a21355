-- ===== src/Str/Compare.antt =====
-- strcmp and strncmp: the order that they compute, and where they say that strings are equal.
use jaclibc.Base.{
  ℕ, zero, suc, ◌+◌, ◌<◌, ◌≡◌, ◌≢◌, ◌↔◌, List, [], ◌∷◌, Bool, true, false, some, length, arith, ℤ,
  pos, negsuc, if◌then◌else◌, ap₂, sym, refl, ◌∙◌, ap, Bool-cases, inl, inr, ◌==◌,
}
use jaclibc.Memory.{Memory, Ptr, IsString}
use jaclibc.Str.{char_lt, compare_string, strcmp}

-- -1, 0 or 1 by the first place where two strings differ; the end of a string counts as a NUL.
abbrev pub sign : Bool → ℕ → ℕ → ℤ
sign signed a b =
    if char_lt signed a b then negsuc 0 else if char_lt signed b a then pos 1 else pos 0

pub lex_order : Bool → List ℕ → List ℕ → ℤ
lex_order signed [] [] = pos 0
lex_order signed [] (d ∷ ds) = sign signed 0 d
lex_order signed (c ∷ cs) [] = sign signed c 0
lex_order signed (c ∷ cs) (d ∷ ds) =
    let rest = lex_order signed cs ds in if c == d then rest else sign signed c d

char_lt_irrefl : (signed : Bool) (c : ℕ) → char_lt signed c c ≡ false
unfolding char_lt
char_lt_irrefl true c = ground arith
char_lt_irrefl false c = ground arith

compare_string_lem :
    (signed : Bool) (cs ds : List ℕ) (f : ℕ) (m : Memory) (a b : Ptr)
    → IsString m a cs
    → IsString m b ds
    → length cs < f
    → compare_string signed f m a b ≡ some (lex_order signed cs ds)
unfolding compare_string lex_order
compare_string_lem signed cs ds zero m a b ha hb lt = absurd (omega arith)
compare_string_lem signed [] [] (suc f) m a b ha hb lt = ground (arith, char_lt_irrefl signed (m a))
compare_string_lem signed [] (d ∷ ds) (suc f) m a b ha hb lt = ground (arith, hb.1)
compare_string_lem signed (c ∷ cs) [] (suc f) m a b ha hb lt = ground (arith, ha.1)
compare_string_lem signed (c ∷ cs) (d ∷ ds) (suc f) m a b ha hb lt =
    ground
      (arith, ha.1, compare_string_lem signed cs ds f m (a + 1) (b + 1) ha.2 hb.2 (omega arith))

sign-zero : (signed : Bool) (a b : ℕ) → a < 256 → b < 256 → sign signed a b ≡ pos 0 → a ≡ b
unfolding char_lt
sign-zero true a b ha hb h = ground arith
sign-zero false a b ha hb h = ground arith

-- Two strings of bytes other than NUL.
abbrev pub AreText : List ℕ → Type 0
AreText [] = Unit
AreText (c ∷ cs) = (c < 256) × (c ≢ 0) × AreText cs

lex_order-zero :
    (signed : Bool) (cs ds : List ℕ)
    → AreText cs
    → AreText ds
    → lex_order signed cs ds ≡ pos 0
    → cs ≡ ds
unfolding lex_order
lex_order-zero signed [] [] hc hd e = refl
lex_order-zero signed [] (d ∷ ds) hc hd e =
    absurd (hd.1 (sym (sign-zero signed 0 d (omega arith) hd.0 e)))
lex_order-zero signed (c ∷ cs) [] hc hd e =
    absurd (hc.1 (sign-zero signed c 0 hc.0 (omega arith) e))
lex_order-zero signed (c ∷ cs) (d ∷ ds) hc hd e =
    let same : c ≡ d = ground (arith, sign-zero signed c d hc.0 hd.0) in
    let rest : lex_order signed cs ds ≡ pos 0 = ground arith in
    ap₂ ◌∷◌ same (lex_order-zero signed cs ds hc.2 hd.2 rest)

lex_order_refl : (signed : Bool) (cs : List ℕ) → lex_order signed cs cs ≡ pos 0
unfolding lex_order
lex_order_refl signed [] = refl
lex_order_refl signed (c ∷ cs) = ground (arith, lex_order_refl signed cs)

sign_flip :
    (signed : Bool) (a b : ℕ)
    → (sign signed a b ≡ negsuc 0 → sign signed b a ≡ pos 1)
      × (sign signed b a ≡ pos 1 → sign signed a b ≡ negsuc 0)
unfolding char_lt
sign_flip true a b = (λ e. ground arith, λ e. ground arith)
sign_flip false a b = (λ e. ground arith, λ e. ground arith)

lex_order_flip :
    (signed : Bool) (cs ds : List ℕ)
    → (lex_order signed cs ds ≡ negsuc 0 → lex_order signed ds cs ≡ pos 1)
      × (lex_order signed ds cs ≡ pos 1 → lex_order signed cs ds ≡ negsuc 0)
unfolding lex_order
lex_order_flip signed [] [] = (λ e. cc, λ e. cc)
lex_order_flip signed [] (d ∷ ds) = sign_flip signed 0 d
lex_order_flip signed (c ∷ cs) [] = sign_flip signed c 0
lex_order_flip signed (c ∷ cs) (d ∷ ds) =
    let flips = sign_flip signed c d in
    let rest = lex_order_flip signed cs ds in
    (
      λ e. elim (Bool-cases (c == d)) [
        | inl same ↦ ground (arith, rest.0 (ground arith))
        | inr differ ↦ ground (arith, flips.0 (ground arith))
      ],
      λ e. elim (Bool-cases (c == d)) [
        | inl same ↦ ground (arith, rest.1 (ground arith))
        | inr differ ↦ ground (arith, flips.1 (ground arith))
      ],
    )

-- strcmp gives 0 exactly for equal strings, and where it gives -1 one way round it gives 1 the other
-- way round, whether `char` is signed or not. No pointer is NULL, and one round for each byte of
-- a string and one for its NUL are enough fuel.
pub strcmp_lem :
    (signed : Bool) (cs ds : List ℕ) (f : ℕ) (m : Memory) (a b : Ptr)
    → a ≢ 0
    → b ≢ 0
    → AreText cs
    → AreText ds
    → IsString m a cs
    → IsString m b ds
    → length cs < f
    → length ds < f
    → ((strcmp signed f m a b ≡ some (pos 0)) ↔ (cs ≡ ds))
      × ((strcmp signed f m a b ≡ some (negsuc 0)) ↔ (strcmp signed f m b a ≡ some (pos 1)))
unfolding strcmp
strcmp_lem signed cs ds f m a b na nb tc td ha hb lc ld =
    let ab : strcmp signed f m a b ≡ some (lex_order signed cs ds) =
      ground (arith, compare_string_lem signed cs ds f m a b ha hb lc) in
    let ba : strcmp signed f m b a ≡ some (lex_order signed ds cs) =
      ground (arith, compare_string_lem signed ds cs f m b a hb ha ld) in
    let flips = lex_order_flip signed cs ds in
    (
      (
        λ e. lex_order-zero signed cs ds tc td (ground arith),
        λ e. ab ∙ ap some (rw e (lex_order_refl signed ds)),
      ),
      (λ e. ba ∙ ap some (flips.0 (ground arith)), λ e. ab ∙ ap some (flips.1 (ground arith))),
    )
