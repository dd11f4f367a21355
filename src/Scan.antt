-- ===== src/Scan.antt =====
-- include/string.h: searching in NUL-terminated strings and splitting them, strchr to strtok_r,
-- and the aliases index and rindex of include/strings.h.
-- A loop that ends at a NUL byte takes fuel; `none` means that the fuel ran out.
pub mod Find
pub mod Tokens
pub mod Cut
use jaclibc.Base.{
  ℕ, zero, suc, ◌+◌, ◌%◌, Bool, true, false, not, ◌||◌, ◌==◌, if◌then◌else◌, ℤ, pos, negsuc, Option,
  none, some, ◌>>=◌,
}
use jaclibc.Memory.{Memory, Ptr, null, store}
use jaclibc.Str.{strlen, strncmp}

unfoldable pub find_char : ℕ → Memory → Ptr → ℕ → Option Ptr
find_char zero m s c = none
find_char (suc f) m s c =
    let rest = find_char f m (s + 1) c in
    if m s == c % 256 then some s else if m s == 0 then some null else rest

unfoldable pub strchr : ℕ → Memory → Ptr → ℕ → Option Ptr
strchr f m s c = if s == null then some null else find_char f m s c

unfoldable pub find_last : ℕ → Memory → Ptr → ℕ → Ptr → Option Ptr
find_last zero m s c r = none
find_last (suc f) m s c r =
    let r' = if m s == c % 256 then s else r in
    let rest = find_last f m (s + 1) c r' in if m s == 0 then some r' else rest

unfoldable pub strrchr : ℕ → Memory → Ptr → ℕ → Option Ptr
strrchr f m s c = if s == null then some null else find_last f m s c null

unfoldable pub index : ℕ → Memory → Ptr → ℕ → Option Ptr
index = strchr

unfoldable pub rindex : ℕ → Memory → Ptr → ℕ → Option Ptr
rindex = strrchr

-- for (; *h; h++) if (!strncmp(h, n, nl)) return h;
unfoldable pub window_scan : Bool → ℕ → Memory → Ptr → Ptr → ℕ → Option Ptr
window_scan signed zero m h n nl = none
window_scan signed (suc f) m h n nl =
    let rest = window_scan signed f m (h + 1) n nl in
    let found : Option Ptr = elim (strncmp signed m h n nl) [ pos zero ↦ some h | _ ↦ rest ] in
    if m h == 0 then some null else found

unfoldable pub strstr : Bool → ℕ → Memory → Ptr → Ptr → Option Ptr
strstr signed f m h n =
    if h == null || n == null
    then some null
    else (do nl ← strlen f m n; if nl == 0 then some h else window_scan signed f m h n nl)

-- while (s[i] && strchr(set, s[i])) i++; with `want` false for while (s[i] && !strchr(set, s[i])).
unfoldable pub span_loop : Bool → ℕ → ℕ → Memory → Ptr → Ptr → ℕ → Option ℕ
span_loop want zero g m s set i = none
span_loop want (suc f) g m s set i =
    let rest = span_loop want f g m s set (i + 1) in
    if m (s + i) == 0
    then some i
    else strchr g m set (m (s + i)) >>= λ p.
        if (if want then not (p == null) else p == null) then rest else some i

unfoldable pub strspn : ℕ → Memory → Ptr → Ptr → Option ℕ
strspn f m s accept =
    if s == null || accept == null then some 0 else span_loop true f f m s accept 0

unfoldable pub strcspn : ℕ → Memory → Ptr → Ptr → Option ℕ
strcspn f m s reject = if s == null then some 0 else span_loop false f f m s reject 0

-- for (; *s; s++) if (strchr(accept, *s)) return s;
unfoldable pub break_loop : ℕ → ℕ → Memory → Ptr → Ptr → Option Ptr
break_loop zero g m s accept = none
break_loop (suc f) g m s accept =
    let rest = break_loop f g m (s + 1) accept in
    if m s == 0
    then some null
    else strchr g m accept (m s) >>= λ p. if p == null then rest else some s

unfoldable pub strpbrk : ℕ → Memory → Ptr → Ptr → Option Ptr
strpbrk f m s accept = if s == null || accept == null then some null else break_loop f f m s accept

-- What `strtok_r` leaves: the token (or NULL), the saved pointer `*save` and the memory after the call.
pub record Token : Type 0 where
  pub start : Ptr
  pub save : Ptr
  pub mem : Memory

-- From the first byte that is no delimiter: `save` is not NULL, and *save is the argument `save`.
unfoldable pub cut_token : ℕ → Memory → Ptr → Ptr → Option Token
cut_token f m p delim =
    if m p == 0
    then some (record { start = null; save = null; mem = m })
    else strcspn f m p delim >>= λ n. some (
        if m (p + n) == 0
        then record { start = p; save = p + n; mem = m }
        else record { start = p; save = p + n + 1; mem = store m (p + n) 0 })

-- `save` is the value of `*save` before the call; the address of that pointer is not NULL.
unfoldable pub strtok_r : ℕ → Memory → Ptr → Ptr → Ptr → Option Token
strtok_r f m s delim save =
    let p = if s == null then save else s in
    if delim == null || p == null
    then some (record { start = null; save = save; mem = m })
    else strspn f m p delim >>= λ n. cut_token f m (p + n) delim
