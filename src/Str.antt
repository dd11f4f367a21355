-- ===== src/Str.antt =====
-- include/string.h: the routines on NUL-terminated strings. A loop that ends at a NUL byte takes
-- fuel, one unit for each round; `none` means that the fuel ran out.
pub mod Length
pub mod Copy
pub mod Bounded
pub mod Padded
pub mod Compare
pub mod Bound
use jaclibc.Base.{
  ℕ, zero, suc, ◌+◌, ◌-◌, ◌*◌, ◌%◌, Bool, true, false, not, ◌&&◌, ◌||◌, ◌==◌, ltb, leb,
  if◌then◌else◌, ℤ, pos, negsuc, Option, none, some, ◌>>=◌,
}
use jaclibc.Memory.{Memory, Ptr, null, store}
use jaclibc.Mem.{memcpy, compare_null}

-- while (s[len]) len++;
unfoldable pub length_loop : ℕ → Memory → Ptr → ℕ → Option ℕ
length_loop zero m s len = none
length_loop (suc f) m s len =
    let rest = length_loop f m s (len + 1) in if m (s + len) == 0 then some len else rest

unfoldable pub strlen : ℕ → Memory → Ptr → Option ℕ
strlen f m s = if s == null then some 0 else length_loop f m s 0

-- while (i < n && s[i]) i++;
unfoldable pub bounded_length : ℕ → ℕ → Memory → Ptr → ℕ
bounded_length zero i m s = i
bounded_length (suc left) i m s =
    let rest = bounded_length left (i + 1) m s in if m (s + i) == 0 then i else rest

unfoldable pub strnlen : Memory → Ptr → ℕ → ℕ
strnlen m s n = if s == null then 0 else bounded_length n 0 m s

-- while ((*p++ = *src++));
unfoldable pub copy_string : ℕ → Memory → Ptr → Ptr → Option Memory
copy_string zero m p src = none
copy_string (suc f) m p src =
    let m' = store m p (m src) in
    let rest = copy_string f m' (p + 1) (src + 1) in if m src == 0 then some m' else rest

unfoldable pub strcpy : ℕ → Memory → Ptr → Ptr → Option (Ptr × Memory)
strcpy f m dest src =
    if dest == null || src == null
    then some (null, m)
    else copy_string f m dest src >>= λ m'. some (dest, m')

-- for (; i < n; i++) dest[i] = '\0';
unfoldable pub pad_loop : ℕ → ℕ → Memory → Ptr → Memory
pad_loop zero i m dest = m
pad_loop (suc left) i m dest = pad_loop left (i + 1) (store m (dest + i) 0) dest

-- for (; i < n && src[i]; i++) dest[i] = src[i]; the result is i and the memory.
unfoldable pub copy_bounded : ℕ → ℕ → Memory → Ptr → Ptr → ℕ × Memory
copy_bounded zero i m dest src = (i, m)
copy_bounded (suc left) i m dest src =
    let rest = copy_bounded left (i + 1) (store m (dest + i) (m (src + i))) dest src in
    if m (src + i) == 0 then (i, m) else rest

unfoldable pub strncpy : Memory → Ptr → Ptr → ℕ → Ptr × Memory
strncpy m dest src n =
    let (i, m') = copy_bounded n 0 m dest src in
    if dest == null || src == null then (null, m) else (dest, pad_loop (n - i) i m' dest)

unfoldable pub strcat : ℕ → Memory → Ptr → Ptr → Option (Ptr × Memory)
strcat f m dest src =
    if dest == null || src == null
    then some (null, m)
    else (do len ← strlen f m dest; m' ← copy_string f m (dest + len) src; some (dest, m'))

unfoldable pub strncat : ℕ → Memory → Ptr → Ptr → ℕ → Option (Ptr × Memory)
strncat f m dest src n = if dest == null || src == null then some (null, m) else (do
  len ← strlen f m dest
  let copied = copy_bounded n 0 m (dest + len) src
  some (dest, store copied.1 (dest + len + copied.0) 0))

unfoldable pub strlcpy : ℕ → Memory → Ptr → Ptr → ℕ → Option (ℕ × Memory)
strlcpy f m dest src n = if src == null then some (0, m) else (do
  len ← strlen f m src
  let end = if leb n len then n - 1 else len
  some (
    len,
    if not (dest == null) && ltb 0 n then store (memcpy m dest src end).1 (dest + end) 0 else m,
  ))

unfoldable pub strlcat : ℕ → Memory → Ptr → Ptr → ℕ → Option (ℕ × Memory)
strlcat f m dest src n =
    if src == null
    then (if dest == null then some (0, m) else (do len ← strlen f m dest; some (len, m)))
    else strlen f m src >>= λ slen.
        if dest == null || n == 0
        then some (slen, m)
        else strlen f m dest >>= λ dlen.
            let end = if leb n (dlen + slen) then n - dlen - 1 else slen in
            if leb n dlen
            then some (n + slen, m)
            else some (dlen + slen, store (memcpy m (dest + dlen) src end).1 (dest + dlen + end) 0)

-- while ((*dest = *src)) { dest++; src++; } the result is the address of the NUL.
unfoldable pub copy_to_end : ℕ → Memory → Ptr → Ptr → Option (Ptr × Memory)
copy_to_end zero m dest src = none
copy_to_end (suc f) m dest src =
    let m' = store m dest (m src) in
    let rest = copy_to_end f m' (dest + 1) (src + 1) in if m src == 0 then some (dest, m') else rest

unfoldable pub stpcpy : ℕ → Memory → Ptr → Ptr → Option (Ptr × Memory)
stpcpy f m dest src =
    if dest == null || src == null then some (null, m) else copy_to_end f m dest src

unfoldable pub stpncpy : Memory → Ptr → Ptr → ℕ → Ptr × Memory
stpncpy m dest src n =
    let (i, m') = copy_bounded n 0 m dest src in
    if dest == null || src == null then (null, m) else (dest + i, pad_loop (n - i) i m' dest)

-- `a < b` on two values of type `char`, which is signed or not as the platform has it.
unfoldable pub char_lt : Bool → ℕ → ℕ → Bool
char_lt signed a b = if signed then ltb ((a + 128) % 256) ((b + 128) % 256) else ltb a b

-- while (*a && *a == *b) { a++; b++; } then return (*a < *b) ? -1 : (*a > *b);
unfoldable pub compare_string : Bool → ℕ → Memory → Ptr → Ptr → Option ℤ
compare_string signed zero m a b = none
compare_string signed (suc f) m a b =
    let rest = compare_string signed f m (a + 1) (b + 1) in
    if not (m a == 0) && m a == m b
    then rest
    else some (
        if char_lt signed (m a) (m b)
        then negsuc 0
        else if char_lt signed (m b) (m a)
        then pos 1
        else pos 0)

unfoldable pub strcmp : Bool → ℕ → Memory → Ptr → Ptr → Option ℤ
strcmp signed f m a b =
    if a == null || b == null then some (compare_null a b) else compare_string signed f m a b

-- for (; i < n && a[i] && a[i] == b[i]; i++); if (i == n) return 0;
unfoldable pub compare_bounded : Bool → ℕ → ℕ → Memory → Ptr → Ptr → ℤ
compare_bounded signed zero i m a b = pos 0
compare_bounded signed (suc left) i m a b =
    let rest = compare_bounded signed left (i + 1) m a b in
    if not (m (a + i) == 0) && m (a + i) == m (b + i)
    then rest
    else if char_lt signed (m (a + i)) (m (b + i))
    then negsuc 0
    else pos 1

unfoldable pub strncmp : Bool → Memory → Ptr → Ptr → ℕ → ℤ
strncmp signed m a b n =
    if a == null || b == null then compare_null a b else compare_bounded signed n 0 m a b

unfoldable pub strxfrm_l : ℕ → Memory → Ptr → Ptr → ℕ → Option (ℕ × Memory)
strxfrm_l f m dest src n = if src == null then some (0, m) else (do
  l ← strlen f m src
  let copy_len = if ltb l n then l + 1 else n
  some (l, if not (dest == null) && ltb 0 n then (memcpy m dest src copy_len).1 else m))
