-- ===== src/Wide.antt =====
-- include/wchar.h: the routines on wide characters, wmemcpy to wcstok. The memory holds a wide character at each
-- address, so that p + 1 is the next one; a wide character is its bit pattern in 32 bits, and wchar_t
-- is signed. A loop that ends at a NUL takes fuel; `none` means that the fuel ran out. The loops
-- that string.h has as well are those of Mem.antt and Str.antt.
pub mod Bounded
use jaclibc.Base.{
  ℕ, zero, suc, ◌+◌, ◌-◌, ◌%◌, ◌^◌, Bool, true, false, not, ◌&&◌, ◌||◌, ◌==◌, ltb, if◌then◌else◌, ℤ,
  pos, negsuc, Option, none, some, ◌>>=◌,
}
use jaclibc.Memory.{Memory, Ptr, null, store}
use jaclibc.Mem.{copy_up, copy_down, compare_null}
use jaclibc.Str.{length_loop, bounded_length, copy_string, copy_bounded, pad_loop, copy_to_end}

unfoldable pub wmemcpy : Memory → Ptr → Ptr → ℕ → Ptr × Memory
wmemcpy m d s n = if d == null || s == null then (null, m) else (d, copy_up n 0 m d s)

unfoldable pub wmemmove : Memory → Ptr → Ptr → ℕ → Ptr × Memory
wmemmove m d s n =
    if d == null || s == null
    then (null, m)
    else (d, if ltb d s then copy_up n 0 m d s else copy_down n m d s)

unfoldable pub wide_find : ℕ → ℕ → Memory → Ptr → ℕ → Ptr
wide_find zero i m s c = null
wide_find (suc left) i m s c =
    let rest = wide_find left (i + 1) m s c in if m (s + i) == c then s + i else rest

unfoldable pub wmemchr : Memory → Ptr → ℕ → ℕ → Ptr
wmemchr m s c n = if s == null then null else wide_find n 0 m s c

-- a < b on two values of wchar_t.
abbrev pub wide_lt : ℕ → ℕ → Bool
wide_lt a b = ltb ((a + 2 ^ 31) % 2 ^ 32) ((b + 2 ^ 31) % 2 ^ 32)

unfoldable pub wide_compare : ℕ → ℕ → Memory → Ptr → Ptr → ℤ
wide_compare zero i m a b = pos 0
wide_compare (suc left) i m a b =
    let rest = wide_compare left (i + 1) m a b in
    if m (a + i) == m (b + i)
    then rest
    else if wide_lt (m (a + i)) (m (b + i))
    then negsuc 0
    else pos 1

unfoldable pub wmemcmp : Memory → Ptr → Ptr → ℕ → ℤ
wmemcmp m a b n = if a == null || b == null then compare_null a b else wide_compare n 0 m a b

unfoldable pub wide_fill : ℕ → ℕ → Memory → Ptr → ℕ → Memory
wide_fill zero i m s c = m
wide_fill (suc left) i m s c = wide_fill left (i + 1) (store m (s + i) c) s c

unfoldable pub wmemset : Memory → Ptr → ℕ → ℕ → Ptr × Memory
wmemset m s c n = if s == null then (null, m) else (s, wide_fill n 0 m s c)

unfoldable pub wcslen : ℕ → Memory → Ptr → Option ℕ
wcslen f m s = if s == null then some 0 else length_loop f m s 0

unfoldable pub wcsnlen : Memory → Ptr → ℕ → ℕ
wcsnlen m ws maxlen = if ws == null then 0 else bounded_length maxlen 0 m ws

unfoldable pub wcscpy : ℕ → Memory → Ptr → Ptr → Option (Ptr × Memory)
wcscpy f m d s =
    if d == null || s == null then some (null, m) else copy_string f m d s >>= λ m'. some (d, m')

unfoldable pub wcsncpy : Memory → Ptr → Ptr → ℕ → Ptr × Memory
wcsncpy m d s n =
    let (i, m') = copy_bounded n 0 m d s in
    if d == null || s == null then (null, m) else (d, pad_loop (n - i) i m' d)

-- while (*a && *a == *b) { a++; b++; } and the line behind it.
unfoldable pub wide_order : ℕ → Memory → Ptr → Ptr → Option ℤ
wide_order zero m a b = none
wide_order (suc f) m a b =
    let rest = wide_order f m (a + 1) (b + 1) in
    if not (m a == 0) && m a == m b
    then rest
    else some
        (if wide_lt (m a) (m b) then negsuc 0 else if wide_lt (m b) (m a) then pos 1 else pos 0)

unfoldable pub wcscmp : ℕ → Memory → Ptr → Ptr → Option ℤ
wcscmp f m a b = if a == null || b == null then some (compare_null a b) else wide_order f m a b

-- for (; i < n && a[i] && a[i] == b[i]; i++) and the lines behind it.
unfoldable pub wide_order_bounded : ℕ → ℕ → Memory → Ptr → Ptr → ℤ
wide_order_bounded zero i m a b = pos 0
wide_order_bounded (suc left) i m a b =
    let rest = wide_order_bounded left (i + 1) m a b in
    if not (m (a + i) == 0) && m (a + i) == m (b + i)
    then rest
    else if wide_lt (m (a + i)) (m (b + i))
    then negsuc 0
    else pos 1

unfoldable pub wcsncmp : Memory → Ptr → Ptr → ℕ → ℤ
wcsncmp m a b n = if a == null || b == null then compare_null a b else wide_order_bounded n 0 m a b

unfoldable pub wcscat : ℕ → Memory → Ptr → Ptr → Option (Ptr × Memory)
wcscat f m ws1 ws2 =
    if ws1 == null || ws2 == null
    then some (null, m)
    else (do len ← length_loop f m ws1 0; m' ← copy_string f m (ws1 + len) ws2; some (ws1, m'))

unfoldable pub wcsncat : ℕ → Memory → Ptr → Ptr → ℕ → Option (Ptr × Memory)
wcsncat f m ws1 ws2 n = if ws1 == null || ws2 == null then some (null, m) else (do
  len ← length_loop f m ws1 0
  let copied = copy_bounded n 0 m (ws1 + len) ws2
  some (ws1, store copied.1 (ws1 + len + copied.0) 0))

unfoldable pub wide_char : ℕ → Memory → Ptr → ℕ → Option Ptr
wide_char zero m s c = none
wide_char (suc f) m s c =
    let rest = wide_char f m (s + 1) c in
    if m s == c then some s else if m s == 0 then some null else rest

unfoldable pub wcschr : ℕ → Memory → Ptr → ℕ → Option Ptr
wcschr f m s c = if s == null then some null else wide_char f m s c

unfoldable pub wide_last : ℕ → Memory → Ptr → ℕ → Ptr → Option Ptr
wide_last zero m s c r = none
wide_last (suc f) m s c r =
    let r' = if m s == c then s else r in
    let rest = wide_last f m (s + 1) c r' in if m s == 0 then some r' else rest

unfoldable pub wcsrchr : ℕ → Memory → Ptr → ℕ → Option Ptr
wcsrchr f m s c = if s == null then some null else wide_last f m s c null

-- The loops of wcsspn and, with `want` false, of wcscspn, where ws2 NULL stops at no character.
unfoldable pub wide_span : Bool → ℕ → ℕ → Memory → Ptr → Ptr → ℕ → Option ℕ
wide_span want zero g m ws1 ws2 i = none
wide_span want (suc f) g m ws1 ws2 i =
    let rest = wide_span want f g m ws1 ws2 (i + 1) in
    if m (ws1 + i) == 0
    then some i
    else wcschr g m ws2 (m (ws1 + i)) >>= λ p.
        if (if want then not (p == null) else p == null) then rest else some i

unfoldable pub wcscspn : ℕ → Memory → Ptr → Ptr → Option ℕ
wcscspn f m ws1 ws2 = if ws1 == null then some 0 else wide_span false f f m ws1 ws2 0

unfoldable pub wcsspn : ℕ → Memory → Ptr → Ptr → Option ℕ
wcsspn f m ws1 ws2 = if ws1 == null || ws2 == null then some 0 else wide_span true f f m ws1 ws2 0

unfoldable pub wide_break : ℕ → ℕ → Memory → Ptr → Ptr → Option Ptr
wide_break zero g m ws1 ws2 = none
wide_break (suc f) g m ws1 ws2 =
    let rest = wide_break f g m (ws1 + 1) ws2 in
    if m ws1 == 0
    then some null
    else wcschr g m ws2 (m ws1) >>= λ p. if p == null then rest else some ws1

unfoldable pub wcspbrk : ℕ → Memory → Ptr → Ptr → Option Ptr
wcspbrk f m ws1 ws2 = if ws1 == null || ws2 == null then some null else wide_break f f m ws1 ws2

unfoldable pub wide_window : ℕ → Memory → Ptr → Ptr → ℕ → Option Ptr
wide_window zero m h n l = none
wide_window (suc f) m h n l =
    let rest = wide_window f m (h + 1) n l in
    let found : Option Ptr = elim (wcsncmp m h n l) [ pos zero ↦ some h | _ ↦ rest ] in
    if m h == 0 then some null else found

unfoldable pub wcsstr : ℕ → Memory → Ptr → Ptr → Option Ptr
wcsstr f m h n =
    if h == null || n == null
    then some null
    else (do l ← wcslen f m n; if l == 0 then some h else wide_window f m h n l)

unfoldable pub wcpcpy : ℕ → Memory → Ptr → Ptr → Option (Ptr × Memory)
wcpcpy f m ws1 ws2 = if ws1 == null || ws2 == null then some (null, m) else copy_to_end f m ws1 ws2

unfoldable pub wcpncpy : Memory → Ptr → Ptr → ℕ → Ptr × Memory
wcpncpy m ws1 ws2 n =
    let (i, m') = copy_bounded n 0 m ws1 ws2 in
    if ws1 == null || ws2 == null then (null, m) else (ws1 + i, pad_loop (n - i) i m' ws1)

-- while (i < dstsize - 1 && src[i]) { ... } dst[i] = L'\0'; while (src[i]) i++;
unfoldable pub wcslcpy : ℕ → Memory → Ptr → Ptr → ℕ → Option (ℕ × Memory)
wcslcpy f m dst src dstsize =
    let (i, m') = copy_bounded (dstsize - 1) 0 m dst src in
    let m'' = store m' (dst + i) 0 in
    if ltb 0 dstsize
    then (do len ← length_loop f m'' src i; some (len, m''))
    else (do len ← length_loop f m src 0; some (len, m))

unfoldable pub wcslcat : ℕ → Memory → Ptr → Ptr → ℕ → Option (ℕ × Memory)
wcslcat f m dst src dstsize =
    let dstlen = bounded_length dstsize 0 m dst in
    let (i, m') = copy_bounded (dstsize - 1 - dstlen) 0 m (dst + dstlen) src in
    let m'' = store m' (dst + dstlen + i) 0 in
    if dstlen == dstsize
    then (do len ← wcslen f m src; some (dstlen + len, m))
    else (do len ← wcslen f m'' src; some (dstlen + len, m''))

-- The result, what *ptr is then, and the memory; *ptr is `save` before, and ptr is not NULL.
unfoldable pub wcstok : ℕ → Memory → Ptr → Ptr → Ptr → Option (Ptr × Ptr × Memory)
wcstok f m ws1 ws2 save =
    let s = if ws1 == null then save else ws1 in
    if ws2 == null || s == null
    then some (null, save, m)
    else wcsspn f m s ws2 >>= λ n.
        if m (s + n) == 0
        then some (null, null, m)
        else wcscspn f m (s + n) ws2 >>= λ k.
            if m (s + n + k) == 0
            then some (s + n, null, m)
            else some (s + n, s + n + k + 1, store m (s + n + k) 0)
