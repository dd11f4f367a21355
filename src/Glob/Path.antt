-- ===== src/Glob/Path.antt =====
-- A star in front of a slash under FNM_PATHNAME, and a dash at the start of a bracket.
use jaclibc.Base.{
  ℕ, suc, ◌≡◌, ◌≢◌, Bool, true, false, arith, refl, Option, some, none, [], ◌∷◌, length,
}
use jaclibc.Glob.{Text, has, literal, star_loop, engine, fnmatch, fnm_pathname}

star_loop-stuck :
    (flags : ℕ) (go : Text → Option Bool) (prev : Option ℕ) (s : Text)
    → has flags fnm_pathname ≡ true
    → ((c : ℕ) (u : Text) → c ≢ b'/' → go (c ∷ u) ≡ some false)
    → star_loop flags go prev s ≡ some false
unfolding star_loop
star_loop-stuck flags go prev [] on fails = refl
star_loop-stuck flags go prev (c ∷ s) on fails =
    ground (arith, λ (ne : c ≢ b'/'). fails c s ne, star_loop-stuck flags go (some c) s on fails)

slash_literal : (flags c : ℕ) (p : Text) → c ≢ b'/' → (literal flags c b'/' p).0 ≡ false
unfolding literal
slash_literal flags c [] ne = ground arith
slash_literal flags c (x ∷ p) ne = ground arith

slash_fails :
    (signed : Bool) (flags f : ℕ) (p : Text) (c : ℕ) (s : Text)
    → c ≢ b'/'
    → engine signed flags (suc f) (b'/' ∷ p) none (c ∷ s) ≡ some false
unfolding engine
slash_fails signed flags f p c s ne = ground (arith, slash_literal flags c p ne)

-- Under FNM_PATHNAME a pattern that begins with a star and a slash matches no text at all: the loop
-- over the text stops at a slash before it tries the rest of the pattern there.
pub fnmatch_star_slash :
    (signed : Bool) (p s : Text) (flags : ℕ)
    → has flags fnm_pathname ≡ true
    → fnmatch signed (some (b'*' ∷ b'/' ∷ p)) (some s) flags ≡ some false
unfolding fnmatch
fnmatch_star_slash signed p [] flags on = refl
fnmatch_star_slash signed p (c ∷ s) flags on =
    star_loop-stuck flags (engine signed flags (suc (suc (length p))) (b'/' ∷ p) none) none (c ∷ s)
      on (λ d u ne. slash_fails signed flags (suc (length p)) p d u ne)
