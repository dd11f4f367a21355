-- ===== src/Tests/Strings.antt =====
-- Runs of the str* routines that measure, copy and compare strings.
use jaclibc.Base.{◌≡◌, inr, pos, negsuc, arith, true, some, [], ◌∷◌, ◌++◌, ◌↔◌}
use jaclibc.Memory.{Memory, IsString}
use jaclibc.Memory.Regions.{SameOutside}
use jaclibc.Str.{strcpy, strcat, strlcpy, strlcat, strncpy, strcmp, strncmp}
use jaclibc.Str.Copy.{strcpy_lem, strcat_lem, Copied}
use jaclibc.Str.Bounded.{strlcpy_lem, strlcat_lem}
use jaclibc.Str.Padded.{strncpy_lem}
use jaclibc.Str.Compare.{strcmp_lem, AreText}
use jaclibc.Str.Bound.{strncmp_lem, strncmp_short, SamePrefix}
use jaclibc.Tests.{sample_memory, list_text, word_text, list_there, word_there}

list_AreText : AreText list_text
list_AreText = (
  omega arith,
  omega arith,
  (omega arith, omega arith, (omega arith, omega arith, (omega arith, omega arith, tt))),
)

word_AreText : AreText word_text
word_AreText = (omega arith, omega arith, (omega arith, omega arith, tt))

strcpy_run :
    (m' : Memory) × (strcpy 5 sample_memory 20 1 ≡ some (20, m'))
    × Copied sample_memory m' 20 list_text
strcpy_run =
    strcpy_lem list_text 5 sample_memory 20 1 (omega arith) (omega arith) list_there
      (inr (omega arith)) (omega arith)

strcat_run :
    (m' : Memory) × (strcat 5 sample_memory 8 1 ≡ some (8, m'))
    × IsString m' 8 (word_text ++ list_text)
    × SameOutside sample_memory m' 10 5
strcat_run =
    strcat_lem word_text list_text 5 sample_memory 8 1 (omega arith) (omega arith) word_there
      list_there (inr (omega arith)) (omega arith) (omega arith)

-- Three bytes have room for two.
strlcpy_run :
    (m' : Memory) × (strlcpy 5 sample_memory 20 1 3 ≡ some (4, m'))
    × IsString m' 20 word_text
    × SameOutside sample_memory m' 20 3
strlcpy_run =
    strlcpy_lem list_text 5 sample_memory 20 1 3 (omega arith) (omega arith) (omega arith)
      list_there (inr (omega arith)) (omega arith)

strlcat_lem_example :
    (m' : Memory) × (strlcat 5 sample_memory 8 1 6 ≡ some (6, m'))
    × IsString m' 8 (97 ∷ 98 ∷ 97 ∷ 98 ∷ 44 ∷ [])
    × SameOutside sample_memory m' 10 4
strlcat_lem_example =
    strlcat_lem word_text list_text 5 sample_memory 8 1 6 (omega arith) (omega arith) (omega arith)
      word_there list_there (inr (omega arith)) (omega arith) (omega arith)

strncpy_run : (strncpy sample_memory 20 8 4).0 ≡ 20
strncpy_run =
    (strncpy_lem word_text sample_memory 20 8 4 word_there (inr (omega arith)) (omega arith)
      (omega arith)).0

strcmp_run :
    ((strcmp true 5 sample_memory 1 8 ≡ some (pos 0)) ↔ (list_text ≡ word_text))
    × ((strcmp true 5 sample_memory 1 8 ≡ some (negsuc 0))
        ↔ (strcmp true 5 sample_memory 8 1 ≡ some (pos 1)))
strcmp_run =
    strcmp_lem true list_text word_text 5 sample_memory 1 8 (omega arith) (omega arith) list_AreText
      word_AreText list_there word_there (omega arith) (omega arith)

strncmp_run : (strncmp true sample_memory 1 8 2 ≡ pos 0) ↔ SamePrefix 2 list_text word_text
strncmp_run =
    strncmp_lem true list_text word_text sample_memory 1 8 2 (omega arith) (omega arith) list_there
      word_there

strncmp_short_run : strncmp true sample_memory 8 8 3 ≡ pos 1
strncmp_short_run =
    strncmp_short true word_text sample_memory 8 8 3 (omega arith) (omega arith) word_there
      word_there (omega arith)
