-- ===== src/Path/Split.antt =====
-- Where splitname cuts a path.
use jaclibc.Base.{
  ℕ, zero, suc, ◌-◌, ◌≤◌, ◌<◌, ◌≡◌, ◌≢◌, ◌⊎◌, inl, inr, ◌==◌, if◌then◌else◌, List, some, length,
  get_or, take, drop, arith, ap, ◌∙◌, ℕ_discrete,
}
use jaclibc.Path.{
  Names, slash, dot_name, root_name, strip, name_start, dir_stop, names_at, splitname, basename,
  dirname,
}

-- The name is from `start` to `stop`, with slashes only behind it and, from `dir_end` on, before it.
pub record IsName (path : List ℕ) (dir_end start stop : ℕ) : Type 0 where
  pub not_empty : start < stop
  pub within : stop ≤ length path
  pub behind : (i : ℕ) → stop ≤ i → i < length path → get_or path i 0 ≡ slash
  pub name : (i : ℕ) → start ≤ i → i < stop → get_or path i 0 ≢ slash
  pub before : (i : ℕ) → dir_end ≤ i → i < start → get_or path i 0 ≡ slash
  pub parted : (start ≡ 0) ⊎ (dir_end < start)
  pub dir_clean : (dir_end ≡ 0) ⊎ (get_or path (dir_end - 1) 0 ≢ slash)

strip_lem :
    (p : ℕ → ℕ) (stop len : ℕ)
    → 0 < stop
    → stop ≤ len
    → p (stop - 1) ≢ slash
    → ((i : ℕ) → stop ≤ i → i < len → p i ≡ slash)
    → strip p len ≡ stop
unfolding strip
strip_lem p stop zero lt le ne all = absurd (omega arith)
strip_lem p stop (suc len) lt le ne all = elim (ℕ_discrete stop (suc len)) [
  | yes e ↦ let last : p len ≢ slash = λ s. ne (ap p (omega arith) ∙ s) in ground (arith, last, e)
  | no short ↦
      let rest = strip_lem p stop len lt (omega arith) ne (λ i lo hi. all i lo (omega arith)) in
      ground (arith, rest, all len (omega arith) (omega arith))
]

name_start_lem :
    (p : ℕ → ℕ) (start len : ℕ)
    → start ≤ len
    → ((start ≡ 0) ⊎ (p (start - 1) ≡ slash))
    → ((i : ℕ) → start ≤ i → i < len → p i ≢ slash)
    → name_start p len ≡ start
unfolding name_start
name_start_lem p start zero le edge all = omega arith
name_start_lem p start (suc len) le edge all = elim (ℕ_discrete start (suc len)) [
  | yes e ↦
      let last : p len ≡ slash = elim edge [
        | inl z ↦ absurd (omega arith)
        | inr s ↦ ap p (omega arith) ∙ s
      ] in
      ground (arith, last, e)
  | no short ↦
      let rest =
        name_start_lem p start len (omega arith) edge (λ i lo hi. all i lo (omega arith)) in
      ground (arith, rest, all len (omega arith) (omega arith))
]

dir_stop_lem :
    (p : ℕ → ℕ) (stop len : ℕ)
    → stop ≤ len
    → ((stop ≡ 0) ⊎ (p (stop - 1) ≢ slash))
    → ((i : ℕ) → stop ≤ i → i < len → p i ≡ slash)
    → dir_stop p len ≡ stop
unfolding dir_stop
dir_stop_lem p stop zero le edge all = omega arith
dir_stop_lem p stop (suc len) le edge all = elim (ℕ_discrete stop (suc len)) [
  | yes e ↦
      let last : p len ≢ slash = elim edge [
        | inl z ↦ absurd (omega arith)
        | inr ne ↦ λ s. ne (ap p (omega arith) ∙ s)
      ] in
      ground (arith, last, e)
  | no short ↦
      let rest = dir_stop_lem p stop len (omega arith) edge (λ i lo hi. all i lo (omega arith)) in
      ground (arith, rest, all len (omega arith) (omega arith))
]

names_at_lem :
    (path : List ℕ) (found dir_end start stop : ℕ)
    → IsName path dir_end start stop
    → (start ≡ 0) ⊎ (found ≡ dir_end)
    → ((names_at path stop start found).base ≡ drop start (take stop path))
      × ((names_at path stop start found).dir ≡ (
          if start == 0 then dot_name else if dir_end == 0 then root_name else take dir_end path))
unfolding names_at
names_at_lem path found dir_end start stop h ended =
    let plain : (start ≡ 0) → get_or path 0 0 ≢ slash =
      λ z. h.name 0 (omega arith) (omega (arith, h.not_empty)) in
    let some_path : length path ≢ 0 = λ z. omega (arith, h.not_empty, h.within) in
    let alone : (start ≢ 0) → stop ≢ 1 = λ nz e. omega (arith, h.not_empty) in
    (
      ground (arith, plain, some_path, alone),
      elim ended [
        | inl z ↦ ground (arith, plain, some_path, z)
        | inr e ↦ ground (arith, plain, some_path, alone, e, ap (λ (n : ℕ). take n path) e)
      ],
    )

-- Of a path with such a name basename is the name, and dirname is what stands in front of the slashes
-- that the name follows: "." for no slash, and "/" for nothing in front of them.
pub splitname_lem :
    (path : List ℕ) (dir_end start stop : ℕ)
    → IsName path dir_end start stop
    → (basename (some path) ≡ drop start (take stop path))
      × (dirname (some path) ≡ (
          if start == 0 then dot_name else if dir_end == 0 then root_name else take dir_end path))
unfolding basename dirname
splitname_lem path dir_end start stop h =
    let p : ℕ → ℕ = λ i. get_or path i 0 in
    let stripped =
      strip_lem p stop (length path) (omega (arith, h.not_empty)) h.within
        (h.name (stop - 1) (omega (arith, h.not_empty)) (omega (arith, h.not_empty))) h.behind in
    let edge : (start ≡ 0) ⊎ (p (start - 1) ≡ slash) = elim h.parted [
      | inl z ↦ inl z
      | inr lt ↦ inr (h.before (start - 1) (omega arith) (omega arith))
    ] in
    let begun = name_start_lem p start stop (omega (arith, h.not_empty)) edge h.name in
    let names : splitname path ≡ names_at path stop start (dir_stop p (start - 1)) =
      ap (λ (l : ℕ). names_at path l (name_start p l) (dir_stop p (name_start p l - 1))) stripped
      ∙ ap (λ (a : ℕ). names_at path stop a (dir_stop p (a - 1))) begun in
    let ended : (start ≡ 0) ⊎ (dir_stop p (start - 1) ≡ dir_end) = elim h.parted [
      | inl z ↦ inl z
      | inr lt ↦ inr (
          dir_stop_lem p dir_end (start - 1) (omega arith) h.dir_clean
            (λ i lo hi. h.before i lo (omega arith)))
    ] in
    let cut = names_at_lem path (dir_stop p (start - 1)) dir_end start stop h ended in
    (ap (λ (n : Names). n.base) names ∙ cut.0, ap (λ (n : Names). n.dir) names ∙ cut.1)

strip_root : (p : ℕ → ℕ) (len : ℕ) → 0 < len → ((i : ℕ) → i < len → p i ≡ slash) → strip p len ≡ 1
unfolding strip
strip_root p zero lt all = absurd (omega arith)
strip_root p (suc zero) lt all = ground arith
strip_root p (suc (suc len)) lt all =
    let rest = strip_root p (suc len) (omega arith) (λ i hi. all i (omega arith)) in
    ground (arith, rest, all (suc len) (omega arith))

-- A path of slashes only is the root, and an empty path is the current directory.
pub splitname_root :
    (path : List ℕ)
    → ((i : ℕ) → i < length path → get_or path i 0 ≡ slash)
    → splitname path ≡ (
        if length path == 0
        then record { dir = dot_name; base = dot_name }
        else record { dir = root_name; base = root_name })
unfolding splitname
splitname_root path all = elim (ℕ_discrete (length path) 0) [
  | yes z ↦ ground (arith, z)
  | no nz ↦
      let stripped = strip_root (λ i. get_or path i 0) (length path) (omega arith) all in
      ground (arith, nz, stripped, all 0 (omega arith))
]
