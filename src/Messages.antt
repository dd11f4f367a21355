-- ===== src/Messages.antt =====
-- include/string.h: strerror, strerror_r, strsignal, strdup and strndup, with the values that
-- include/errno.h and include/x/signals_linux.h give the names on Linux. `literal` gives the address of a string
-- literal; the buffers of strerror and strsignal, of 64 bytes each, are at the address `buffer`.
pub mod Copies
pub mod Errors
pub mod Tables
use jaclibc.Base.{
  ℕ, ◌+◌, ◌-◌, ◌==◌, ◌||◌, leb, if◌then◌else◌, ℤ, pos, negsuc, Option, some, none, ◌>>=◌, List,
  get_or, [], ◌∷◌,
}
use jaclibc.Memory.{Memory, Ptr, null, store}
use jaclibc.Mem.{memcpy}
use jaclibc.Str.{strlen, strnlen}
use jaclibc.Messages.Tables.{error_table, signal_table, unknown_error, unknown_signal}

abbrev pub einval : ℕ
einval = 22

abbrev pub erange : ℕ
erange = 34

-- switch (err) { ... }
unfoldable pub error_message : ℤ → List ℕ
error_message (pos n) = get_or error_table n unknown_error
error_message (negsuc n) = unknown_error

-- switch (sig) { ... }
unfoldable pub signal_message : ℤ → List ℕ
signal_message (pos n) = get_or signal_table n unknown_signal
signal_message (negsuc n) = unknown_signal

-- The message, cut where it is too long, in the buffer of 64 bytes.
unfoldable pub put_message : ℕ → Memory → Ptr → Ptr → Option (Ptr × Memory)
put_message f m buffer msg = strlen f m msg >>= λ len.
    let n = if leb 64 len then 63 else len in
    some (buffer, store (memcpy m buffer msg n).1 (buffer + n) 0)

unfoldable pub strerror : (List ℕ → Ptr) → ℕ → Memory → Ptr → ℤ → Option (Ptr × Memory)
unfolding put_message error_message
strerror literal f m buffer err = put_message f m buffer (literal (error_message err))

unfoldable pub strsignal : (List ℕ → Ptr) → ℕ → Memory → Ptr → ℤ → Option (Ptr × Memory)
unfolding put_message signal_message
strsignal literal f m buffer sig = put_message f m buffer (literal (signal_message sig))

-- From `if (len >= buflen)` on.
unfoldable pub hand_over : Memory → Ptr → ℕ → Ptr → ℕ → ℕ × Memory
hand_over m msg len buf buflen =
    if leb buflen len
    then (erange, store (memcpy m buf msg (buflen - 1)).1 (buf + (buflen - 1)) 0)
    else (0, (memcpy m buf msg (len + 1)).1)

unfoldable pub strerror_r : (List ℕ → Ptr) → ℕ → Memory → Ptr → ℤ → Ptr → ℕ → Option (ℕ × Memory)
unfolding strerror hand_over
strerror_r literal f m buffer err buf buflen =
    if buf == null || buflen == 0
    then some (einval, m)
    else strerror literal f m buffer err >>= λ r.
        strlen f r.1 r.0 >>= λ len. some (hand_over r.1 r.0 len buf buflen)

-- `fresh` is what malloc returns, and `errno` is errno behind that call. The result is the pointer,
-- the memory and errno.
unfoldable pub strdup : ℕ → Memory → ℕ → Ptr → Ptr → Option (Ptr × Memory × ℕ)
strdup f m errno fresh s =
    if s == null
    then some (null, m, einval)
    else strlen f m s >>= λ len. some (
        if fresh == null
        then (null, m, errno)
        else ((memcpy m fresh s (len + 1)).0, (memcpy m fresh s (len + 1)).1, errno))

unfoldable pub strndup : Memory → ℕ → Ptr → Ptr → ℕ → Ptr × Memory × ℕ
strndup m errno fresh s n =
    let len = strnlen m s n in
    if s == null
    then (null, m, einval)
    else if fresh == null
    then (null, m, errno)
    else (fresh, store (memcpy m fresh s len).1 (fresh + len) 0, errno)
