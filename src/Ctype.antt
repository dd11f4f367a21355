-- ===== src/Ctype.antt =====
-- include/ctype.h: the classes and the case of a character, for the values of an unsigned char.
pub mod Classes
use jaclibc.Base.{ℕ, ◌+◌, ◌-◌, Bool, ◌&&◌, ◌||◌, not, ◌==◌, ltb, leb, if◌then◌else◌, bit_or}

unfoldable pub isdigit : ℕ → Bool
isdigit c = leb b'0' c && leb c b'9'

unfoldable pub iscntrl : ℕ → Bool
iscntrl c = (leb 0 c && ltb c 32) || c == 127

unfoldable pub isspace : ℕ → Bool
isspace c = c == b' ' || c == 12 || c == 10 || c == 13 || c == 9 || c == 11

unfoldable pub isprint : ℕ → Bool
isprint c = leb 32 c && ltb c 127

unfoldable pub isgraph : ℕ → Bool
unfolding isprint
isgraph c = isprint c && not (c == b' ')

unfoldable pub isupper : ℕ → Bool
isupper c = leb b'A' c && leb c b'Z'

unfoldable pub islower : ℕ → Bool
islower c = leb b'a' c && leb c b'z'

unfoldable pub isalpha : ℕ → Bool
unfolding isupper islower
isalpha c = isupper c || islower c

unfoldable pub isalnum : ℕ → Bool
unfolding isdigit isalpha
isalnum c = isdigit c || isalpha c

unfoldable pub ispunct : ℕ → Bool
unfolding isgraph isalnum
ispunct c = isgraph c && not (isalnum c)

unfoldable pub isxdigit : ℕ → Bool
unfolding isdigit
isxdigit c = isdigit c || (leb b'a' (bit_or c 32) && leb (bit_or c 32) b'f')

unfoldable pub isblank : ℕ → Bool
isblank c = c == b' ' || c == 9

unfoldable pub tolower : ℕ → ℕ
tolower c = if leb b'A' c && leb c b'Z' then c + 32 else c

unfoldable pub toupper : ℕ → ℕ
toupper c = if leb b'a' c && leb c b'z' then c - 32 else c
