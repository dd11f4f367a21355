-- ===== src/Glob/Spec.antt =====
-- What a pattern means with no flags, read off the syntax of patterns: `*`, `?`, `[...]`, the backslash.
use jaclibc.Base.{ℕ, ◌+◌, ◌%◌, ◌≤◌, ◌≡◌, ◌≢◌, ◌⊎◌, Bool, true, false, List, [], ◌∷◌}
use jaclibc.Glob.{Text, backslash}

-- The value of a byte as a `char`, moved up by 128 where that type is signed.
abbrev pub rank : Bool → ℕ → ℕ
rank true a = (a + 128) % 256
rank false a = a

-- An entry of a bracket: a byte, or all bytes from one to another.
pub data Entry : Type 0 where
  one : ℕ → Entry
  span : ℕ → ℕ → Entry

abbrev pub Has : Bool → ℕ → Entry → Type 0
Has signed c (one x) = c ≡ x
Has signed c (span lo hi) = (rank signed lo ≤ rank signed c) × (rank signed c ≤ rank signed hi)

abbrev pub IsIn : Bool → ℕ → List Entry → Type 0
IsIn signed c [] = ⊥
IsIn signed c (e ∷ es) = Has signed c e ⊎ IsIn signed c es

-- The entries up to the closing bracket, and the pattern behind it. A closing bracket in the first place is a
-- byte. A dash with a byte behind it ends a range from the byte before it, or from NUL where none is left over.
pub data Entries : Bool → ℕ → Text → List Entry → Text → Type 0 where
  close : {prev x : ℕ} {p : Text} → x ≡ b']' → Entries false prev (x ∷ p) [] p
  to :
      {first : Bool} {prev x y : ℕ} {p p' : Text} {es : List Entry}
      → x ≡ b'-'
      → y ≢ b']'
      → Entries false 0 p es p'
      → Entries first prev (x ∷ y ∷ p) (span prev y ∷ es) p'
  byte :
      {first : Bool} {prev x y : ℕ} {p p' : Text} {es : List Entry}
      → (x ≢ b']') ⊎ (first ≡ true)
      → (x ≢ b'-') ⊎ (y ≡ b']')
      → Entries false x (y ∷ p) es p'
      → Entries first prev (x ∷ y ∷ p) (one x ∷ es) p'

-- The item that begins with x, and goes on with p, stands for the byte c and ends in front of p'.
pub data Item (signed : Bool) : ℕ → Text → ℕ → Text → Type 0 where
  any : {x c : ℕ} {p : Text} → x ≡ b'?' → Item signed x p c p
  itself :
      {x c : ℕ} {p : Text}
      → x ≢ b'*'
      → x ≢ b'?'
      → x ≢ b'['
      → (x ≢ backslash) ⊎ (p ≡ [])
      → x ≡ c
      → Item signed x p c p
  escaped : {x y c : ℕ} {p : Text} → x ≡ backslash → y ≡ c → Item signed x (y ∷ p) c p
  among :
      {x y c : ℕ} {p p' : Text} {es : List Entry}
      → x ≡ b'['
      → y ≢ b'!'
      → y ≢ b'^'
      → Entries true 0 (y ∷ p) es p'
      → IsIn signed c es
      → Item signed x (y ∷ p) c p'
  outside :
      {x y c : ℕ} {p p' : Text} {es : List Entry}
      → x ≡ b'['
      → (y ≡ b'!') ⊎ (y ≡ b'^')
      → Entries true 0 p es p'
      → ¬ IsIn signed c es
      → Item signed x (y ∷ p) c p'

-- The pattern matches the whole text.
pub data Matches (signed : Bool) : Text → Text → Type 0 where
  end : Matches signed [] []
  item :
      {x c : ℕ} {p p' s : Text}
      → Item signed x p c p'
      → Matches signed p' s
      → Matches signed (x ∷ p) (c ∷ s)
  leave : {x : ℕ} {p s : Text} → x ≡ b'*' → Matches signed p s → Matches signed (x ∷ p) s
  take :
      {x c : ℕ} {p s : Text} → x ≡ b'*' → Matches signed (x ∷ p) s → Matches signed (x ∷ p) (c ∷ s)
