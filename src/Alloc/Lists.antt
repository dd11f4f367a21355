-- ===== src/Alloc/Lists.antt =====
-- The bins hold free blocks, each at one place of one list, and stay so when one is taken or put in.
use jaclibc.Base.{
  ℕ, ◌+◌, ◌<◌, ◌≡◌, ◌≢◌, ◌⊎◌, inl, inr, Bool, true, false, ◌==◌, ==_iff, ltb, if◌then◌else◌, List,
  [], ◌∷◌, arith, refl, sym, subst, ◌∙◌, if_cases,
}
use jaclibc.Alloc.{Segment, put, membin_get, clear_bit, pop_bin, header_bytes, unsafe}
use jaclibc.Alloc.Tiles.{Tiles}

abbrev pub In : ℕ → List ℕ → Type 0
In x [] = ⊥
In x (y ∷ ys) = (x ≡ y) ⊎ In x ys

-- From the offset on, the links lead through these blocks and then to 0; none comes twice.
abbrev pub Chain : (ℕ → ℕ) → ℕ → List ℕ → Type 0
Chain links off [] = off ≡ 0
Chain links off (x ∷ xs) = (off ≡ x) × (x ≢ 0) × (¬ In x xs) × Chain links (links x) xs

pub Chain-frame :
    (links links' : ℕ → ℕ) (off : ℕ) (xs : List ℕ)
    → ((x : ℕ) → In x xs → links' x ≡ links x)
    → Chain links off xs
    → Chain links' off xs
Chain-frame links links' off [] same c = c
Chain-frame links links' off (x ∷ xs) same c = (
  c.0,
  c.1,
  c.2,
  subst (λ (k : ℕ). Chain links' k xs) (sym (same x (inl refl)))
      (Chain-frame links links' (links x) xs (λ y i. same y (inr i)) c.3),
)

module _ {ℓ κ μ} {A : Type ℓ} {B : Type κ} where
  -- What holds at the key that is written and at the others holds at every key.
  pub put_both :
      (P : ℕ → A → B → Type μ) (f : ℕ → A) (g : ℕ → B) (k : ℕ) (v : A) (w : B)
      → P k v w
      → ((j : ℕ) → j ≢ k → P j (f j) (g j))
      → (j : ℕ) → P j (put f k v j) (put g k w j)
  put_both P f g k v w here there j = go (j == k) (==_iff j k).0 (λ e. ground (arith, e))
    where
      go :
          (b : Bool)
          → (b ≡ true → j ≡ k)
          → (b ≡ false → j ≢ k)
          → P j (if b then v else f j) (if b then w else g j)
      go true yes_key no_key = subst (λ (n : ℕ). P n v w) (sym (yes_key refl)) here
      go false yes_key no_key = there j (no_key refl)

-- A free block of the bin i.
pub record IsFree (start : ℕ) (s : Segment) (i x : ℕ) : Type 0 where
  pub class : membin_get (s.headers x).size ≡ i
  pub starts : Tiles s.headers start x
  pub inside : x < s.limit
  pub unused : (s.headers x).flags ≡ 0

-- The blocks fill the segment from the first offset on, and the bins' lists hold free blocks.
pub record IsSegment (start : ℕ) (s : Segment) (lists : ℕ → List ℕ) : Type 0 where
  pub start_in : 0 < start
  pub tiled : Tiles s.headers start s.limit
  pub chained : (i : ℕ) → Chain s.links (s.bins i) (lists i)
  pub free : (i x : ℕ) → In x (lists i) → IsFree start s i x

-- The offset is in no list.
abbrev pub IsOut : (ℕ → List ℕ) → ℕ → Type 0
IsOut lists off = (j : ℕ) → ¬ In off (lists j)

pub clear-IsSegment :
    (start : ℕ) (s : Segment) (lists : ℕ → List ℕ) (i : ℕ)
    → IsSegment start s lists
    → IsSegment start (clear_bit s i) lists
clear-IsSegment start s lists i h = record {
  start_in = h.start_in;
  tiled = h.tiled;
  chained = h.chained;
  free = λ j x m.
      let f = h.free j x m in
      record { class = f.class; starts = f.starts; inside = f.inside; unused = f.unused };
}

-- A bin is given the rest of its list.
shorten-IsSegment :
    (start : ℕ) (s : Segment) (lists : ℕ → List ℕ) (i off : ℕ) (xs : List ℕ)
    → IsSegment start s lists
    → ((x : ℕ) → In x xs → In x (lists i))
    → Chain s.links off xs
    → IsSegment start (record s { bins = put s.bins i off }) (put lists i xs)
shorten-IsSegment start s lists i off xs h sub c = record {
  start_in = h.start_in;
  tiled = h.tiled;
  chained = put_both (λ j k l. Chain s.links k l) s.bins lists i off xs c (λ j ne. h.chained j);
  free =
      put_both
        (λ (j : ℕ) (k : ℕ) (l : List ℕ).
          (x : ℕ) → In x l → IsFree start (record s { bins = put s.bins i off }) j x)
        s.bins lists i off xs (λ x m. again i x (sub x m)) (λ j ne x m. again j x m);
}
  where
    again : (j x : ℕ) → In x (lists j) → IsFree start (record s { bins = put s.bins i off }) j x
    again j x m =
        let f = h.free j x m in
        record { class = f.class; starts = f.starts; inside = f.inside; unused = f.unused }

-- What pop_bin does: it gives no block, or a free one that is in no list any more.
pub data Popped (start : ℕ) (s : Segment) (i : ℕ) : ℕ × Segment → Type 0 where
  nothing :
      (s' : Segment) (lists : ℕ → List ℕ)
      → s'.headers ≡ s.headers
      → s'.limit ≡ s.limit
      → IsSegment start s' lists
      → Popped start s i (0, s')
  taken :
      (off : ℕ) (s' : Segment) (lists : ℕ → List ℕ)
      → off ≢ 0
      → s'.headers ≡ s.headers
      → s'.limit ≡ s.limit
      → IsSegment start s' lists
      → IsOut lists off
      → IsFree start s i off
      → Popped start s i (off, s')

pub pop_bin_lem :
    (start : ℕ) (s : Segment) (lists : ℕ → List ℕ) (i : ℕ) (xs : List ℕ)
    → IsSegment start s lists
    → lists i ≡ xs
    → Popped start s i (pop_bin s i)
unfolding pop_bin
pop_bin_lem start s lists i [] h e =
    let none_left : s.bins i ≡ 0 =
      subst (λ (l : List ℕ). Chain s.links (s.bins i) l) e (h.chained i) in
    if_cases (Popped start s i) (s.bins i == 0) _ _
      (λ z. nothing (clear_bit s i) lists refl refl (clear-IsSegment start s lists i h))
      (λ z. absurd (ground (arith, none_left)))
pop_bin_lem start s lists i (x ∷ xs) h e =
    let c = subst (λ (l : List ℕ). Chain s.links (s.bins i) l) e (h.chained i) in
    let next_chain : Chain s.links (s.links (s.bins i)) xs =
      subst (λ (k : ℕ). Chain s.links (s.links k) xs) (sym c.0) c.3 in
    let member : (y : ℕ) → In y (x ∷ xs) → In y (lists i) =
      λ y m. subst (λ (l : List ℕ). In y l) (sym e) m in
    let popped =
      shorten-IsSegment start s lists i (s.links (s.bins i)) xs h (λ y m. member y (inr m))
        next_chain in
    let out : IsOut (put lists i xs) (s.bins i) =
      put_both (λ (j : ℕ) (k : ℕ) (l : List ℕ). ¬ In (s.bins i) l) s.bins lists i 0 xs
        (λ m. c.2 (subst (λ (k : ℕ). In k xs) c.0 m))
        (λ j ne m. ne (
          sym (h.free j (s.bins i) m).class
          ∙ (h.free i (s.bins i) (member (s.bins i) (inl c.0))).class)) in
    let own = h.free i (s.bins i) (member (s.bins i) (inl c.0)) in
    if_cases (Popped start s i) (s.bins i == 0) _ _
      (λ z. absurd (c.1 (sym c.0 ∙ (==_iff (s.bins i) 0).0 z)))
      (λ nz.
        if_cases (Popped start s i) (unsafe s (s.bins i)) _ _ (λ u. nothing s lists refl refl h)
          (λ safe.
            if_cases (Popped start s i) (ltb s.limit (s.bins i + header_bytes + 8)) _ _
              (λ short. nothing _ (put lists i []) refl refl (
                clear-IsSegment start (record s { bins = put s.bins i 0 }) (put lists i []) i
                  (shorten-IsSegment start s lists i 0 [] h (λ y m. absurd m) refl)))
              (λ room.
                if_cases (λ (t : Segment). Popped start s i (s.bins i, t)) (s.links (s.bins i) == 0)
                  _ _
                  (λ last.
                    taken (s.bins i) _ (put lists i xs) (λ z. c.1 (sym c.0 ∙ z)) refl refl
                      (clear-IsSegment start _ (put lists i xs) i popped) out own)
                  (λ more.
                    taken (s.bins i) _ (put lists i xs) (λ z. c.1 (sym c.0 ∙ z)) refl refl popped
                      out own))))
