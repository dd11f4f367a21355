-- ===== src/Mem.antt =====
-- include/string.h: the routines on a counted number of bytes, memset to memccpy.
-- An `int` argument that stands for a byte is its bit pattern, so `(unsigned char)c` is `c % 256`.
pub mod Copy
pub mod Find
use jaclibc.Base.{
  ℕ, zero, suc, ◌+◌, ◌-◌, ◌%◌, ◌≡◌, Bool, true, false, ◌||◌, ◌==◌, ltb, if◌then◌else◌, ℤ, pos,
  negsuc,
}
use jaclibc.Memory.{Memory, Ptr, null, store}

unfoldable pub fill_loop : ℕ → ℕ → Memory → Ptr → ℕ → Memory
fill_loop zero i m p c = m
fill_loop (suc left) i m p c = fill_loop left (i + 1) (store m (p + i) (c % 256)) p c

unfoldable pub memset : Memory → Ptr → ℕ → ℕ → Ptr × Memory
unfolding fill_loop
memset m s c n = if s == null then (null, m) else (s, fill_loop n 0 m s c)

-- for (i = 0; i < n; i++) d[i] = s[i];
unfoldable pub copy_up : ℕ → ℕ → Memory → Ptr → Ptr → Memory
copy_up zero i m d s = m
copy_up (suc left) i m d s = copy_up left (i + 1) (store m (d + i) (m (s + i))) d s

-- for (i = n; i-- > 0;) d[i] = s[i];
unfoldable pub copy_down : ℕ → Memory → Ptr → Ptr → Memory
copy_down zero m d s = m
copy_down (suc i) m d s = copy_down i (store m (d + i) (m (s + i))) d s

unfoldable pub memmove : Memory → Ptr → Ptr → ℕ → Ptr × Memory
memmove m dest src n =
    if dest == null || src == null
    then (null, m)
    else (dest, if ltb dest src then copy_up n 0 m dest src else copy_down n m dest src)

unfoldable pub memcpy : Memory → Ptr → Ptr → ℕ → Ptr × Memory
memcpy m dest src n =
    if dest == null || src == null then (null, m) else (dest, copy_up n 0 m dest src)

-- if (!a || !b) return a == b ? 0 : (a ? 1 : -1);
abbrev pub compare_null : Ptr → Ptr → ℤ
compare_null a b = if a == b then pos 0 else if a == null then negsuc 0 else pos 1

unfoldable pub compare_loop : ℕ → ℕ → Memory → Ptr → Ptr → ℤ
compare_loop zero i m x y = pos 0
compare_loop (suc left) i m x y =
    let rest = compare_loop left (i + 1) m x y in
    if m (x + i) == m (y + i) then rest else if ltb (m (x + i)) (m (y + i)) then negsuc 0 else pos 1

unfoldable pub memcmp : Memory → Ptr → Ptr → ℕ → ℤ
memcmp m a b n = if a == null || b == null then compare_null a b else compare_loop n 0 m a b

unfoldable pub find_loop : ℕ → ℕ → Memory → Ptr → ℕ → Ptr
find_loop zero i m p c = null
find_loop (suc left) i m p c =
    let rest = find_loop left (i + 1) m p c in if m (p + i) == c % 256 then p + i else rest

unfoldable pub memchr : Memory → Ptr → ℕ → ℕ → Ptr
memchr m s c n = if s == null then null else find_loop n 0 m s c

-- for (i = 0; i <= hl - nl; i++): hl - nl + 1 rounds.
unfoldable pub window_loop : ℕ → ℕ → Memory → Ptr → Ptr → ℕ → Ptr
window_loop zero i m h ndl nl = null
window_loop (suc left) i m h ndl nl =
    let rest = window_loop left (i + 1) m h ndl nl in
    elim (memcmp m (h + i) ndl nl) [ pos zero ↦ h + i | _ ↦ rest ]

unfoldable pub memmem : Memory → Ptr → ℕ → Ptr → ℕ → Ptr
memmem m hay hl ndl nl =
    if hay == null || ndl == null || ltb hl nl
    then null
    else window_loop (hl - nl + 1) 0 m hay ndl nl

unfoldable pub copy_until : ℕ → ℕ → Memory → Ptr → Ptr → ℕ → Ptr × Memory
copy_until zero i m d s c = (null, m)
copy_until (suc left) i m d s c =
    let m' = store m (d + i) (m (s + i)) in
    let rest = copy_until left (i + 1) m' d s c in
    if m' (s + i) == c % 256 then (d + i + 1, m') else rest

unfoldable pub memccpy : Memory → Ptr → Ptr → ℕ → ℕ → Ptr × Memory
memccpy m dest src c n =
    if dest == null || src == null then (null, m) else copy_until n 0 m dest src c
