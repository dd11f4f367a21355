-- ===== src/Alloc/Tiles.antt =====
-- The blocks of a segment stand side by side, as their headers measure them.
use jaclibc.Base.{ℕ, ◌+◌, ◌-◌, ◌≤◌, ◌<◌, ◌≡◌, ◌≢◌, arith, refl, sym, ap, subst, dec_lt}
use jaclibc.Alloc.{Header}

-- Blocks of 32 bytes at least fill the place from the first offset to the second.
pub data Tiles (headers : ℕ → Header) : ℕ → ℕ → Type 0 where
  filled : {a e : ℕ} → a ≡ e → Tiles headers a e
  block :
      {a e : ℕ} → 32 ≤ (headers a).size → Tiles headers (a + (headers a).size) e → Tiles headers a e

pub Tiles-le : {headers : ℕ → Header} {a e : ℕ} → Tiles headers a e → a ≤ e
Tiles-le (filled same) = omega arith
Tiles-le (block big t) = omega (arith, Tiles-le t)

pub Tiles-append :
    {headers : ℕ → Header} {a b e : ℕ} → Tiles headers a b → Tiles headers b e → Tiles headers a e
Tiles-append {headers} {e = e} (filled same) u = subst (λ (k : ℕ). Tiles headers k e) (sym same) u
Tiles-append (block big t) u = block big (Tiles-append t u)

-- Between two block starts there are blocks.
pub Tiles-cut :
    {headers : ℕ → Header} {a b e : ℕ}
    → Tiles headers a b
    → Tiles headers a e
    → b ≤ e
    → Tiles headers b e
Tiles-cut {headers} {e = e} (filled same) u le = subst (λ (k : ℕ). Tiles headers k e) same u
Tiles-cut (block big t) (filled same) le = absurd (omega (arith, Tiles-le t))
Tiles-cut (block big t) (block big' u) le = Tiles-cut t u le

-- Of two blocks that begin at different places one ends before the other begins.
pub Tiles-apart :
    {headers : ℕ → Header} {a x y : ℕ}
    → Tiles headers a x
    → Tiles headers a y
    → x < y
    → (32 ≤ (headers x).size) × (x + (headers x).size ≤ y)
Tiles-apart (filled same) (filled same') lt = absurd (omega arith)
Tiles-apart {headers} {y = y} (filled same) (block big u) lt =
    subst (λ (k : ℕ). (32 ≤ (headers k).size) × (k + (headers k).size ≤ y)) same (big, Tiles-le u)
Tiles-apart (block big t) (filled same) lt = absurd (omega (arith, Tiles-le t))
Tiles-apart (block big t) (block big' u) lt = Tiles-apart t u lt

-- Only the sizes between the two offsets count.
pub Tiles-frame :
    {headers headers' : ℕ → Header} {a e : ℕ}
    → ((q : ℕ) → a ≤ q → q < e → (headers' q).size ≡ (headers q).size)
    → Tiles headers a e
    → Tiles headers' a e
Tiles-frame same (filled e) = filled e
Tiles-frame {headers} {headers'} {a} {e} same (block big t) =
    let here : (headers' a).size ≡ (headers a).size =
      same a (omega arith) (omega (arith, Tiles-le t)) in
    let rest =
      Tiles-frame {headers = headers} {headers' = headers'} (λ q lo hi. same q (omega arith) hi)
        t in
    block (omega arith) (subst (λ (k : ℕ). Tiles headers' (a + k) e) (sym here) rest)

-- What splitting a block in two does to the tiling: a block starts where one started before, and
-- where the second part starts.
module _ (headers headers' : ℕ → Header) (start off need : ℕ) (first : Tiles headers start off)
    (low : 32 ≤ need) (high : need + 32 ≤ (headers off).size) (now : (headers' off).size ≡ need)
    (rest : (headers' (off + need)).size ≡ (headers off).size - need)
    (same : (q : ℕ) → q ≢ off → q ≢ off + need → (headers' q).size ≡ (headers q).size) where
  pub split-before : (x : ℕ) → x ≤ off → Tiles headers start x → Tiles headers' start x
  split-before x le t = Tiles-frame (λ q lo hi. same q (omega arith) (omega arith)) t

  pub split_parts : Tiles headers' off (off + (headers off).size)
  split_parts = block (omega arith) (
      subst (λ (k : ℕ). Tiles headers' (off + k) (off + (headers off).size)) (sym now)
        (block (omega arith) (filled (omega arith))))

  pub split-after : (x : ℕ) → off < x → Tiles headers start x → Tiles headers' start x
  split-after x lt t =
      let (big, le) = Tiles-apart first t lt in
      let whole : Tiles headers start (off + (headers off).size) =
        Tiles-append first (block big (filled refl)) in
      Tiles-append (split-before off (omega arith) first) (
        Tiles-append split_parts
          (Tiles-frame (λ q lo hi. same q (omega arith) (omega arith)) (Tiles-cut whole t le)))

  pub Tiles-split : (x : ℕ) → Tiles headers start x → Tiles headers' start x
  Tiles-split x t = elim (dec_lt off x) [
    | yes lt ↦ split-after x lt t
    | no le ↦ split-before x (omega arith) t
  ]

  -- The second part is a block.
  pub split_rest : Tiles headers' start (off + need)
  split_rest =
      Tiles-append (split-before off (omega arith) first)
        (block (omega arith) (filled (ap (λ (k : ℕ). off + k) now)))
