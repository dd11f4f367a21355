-- ===== src/Fold.antt =====
-- include/strings.h: the comparisons that take upper case for lower case, and bzero, bcopy and bcmp.
-- The loops that only a NUL ends take fuel.
pub mod Compare
use jaclibc.Base.{
  ℕ, zero, suc, ◌+◌, Bool, not, ◌&&◌, ◌||◌, ◌==◌, if◌then◌else◌, ℤ, pos, negsuc, sub_ℕ, Option,
  none, some,
}
use jaclibc.Memory.{Memory, Ptr, null}
use jaclibc.Mem.{compare_null, memset, memmove, memcmp}
use jaclibc.Ctype.{tolower}

-- tolower(*p1) - tolower(*p2)
unfoldable pub fold_difference : Memory → Ptr → Ptr → ℤ
unfolding tolower
fold_difference m p1 p2 = sub_ℕ (tolower (m p1)) (tolower (m p2))

-- while (*p1 && *p2) { ... } and the line behind it.
unfoldable pub fold_loop : ℕ → Memory → Ptr → Ptr → Option ℤ
unfolding fold_difference tolower
fold_loop zero m p1 p2 = none
fold_loop (suc f) m p1 p2 =
    let rest = fold_loop f m (p1 + 1) (p2 + 1) in
    if m p1 == 0 || m p2 == 0
    then some (fold_difference m p1 p2)
    else if tolower (m p1) == tolower (m p2)
    then rest
    else some (fold_difference m p1 p2)

unfoldable pub strcasecmp : ℕ → Memory → Ptr → Ptr → Option ℤ
unfolding fold_loop
strcasecmp f m s1 s2 =
    if s1 == null || s2 == null then some (compare_null s1 s2) else fold_loop f m s1 s2

-- The loop of strncasecmp, with `left` bytes to go, and the lines behind it.
unfoldable pub fold_bounded : ℕ → Memory → Ptr → Ptr → ℤ
unfolding fold_difference tolower
fold_bounded zero m p1 p2 = pos 0
fold_bounded (suc left) m p1 p2 =
    let rest = fold_bounded left m (p1 + 1) (p2 + 1) in
    if m p1 == 0 || m p2 == 0
    then fold_difference m p1 p2
    else if tolower (m p1) == tolower (m p2)
    then rest
    else fold_difference m p1 p2

unfoldable pub strncasecmp : Memory → Ptr → Ptr → ℕ → ℤ
unfolding fold_bounded
strncasecmp m s1 s2 n =
    if n == 0
    then pos 0
    else if s1 == null || s2 == null
    then compare_null s1 s2
    else fold_bounded n m s1 s2

unfoldable pub bzero : Memory → Ptr → ℕ → Memory
unfolding memset
bzero m s n = (memset m s 0 n).1

unfoldable pub bcopy : Memory → Ptr → Ptr → ℕ → Memory
unfolding memmove
bcopy m src dest n = (memmove m dest src n).1

unfoldable pub bcmp : Memory → Ptr → Ptr → ℕ → ℕ
unfolding memcmp
bcmp m s1 s2 n = elim (memcmp m s1 s2 n) [ pos zero ↦ 0 | pos (suc k) ↦ 1 | negsuc k ↦ 1 ]
