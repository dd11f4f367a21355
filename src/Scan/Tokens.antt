-- ===== src/Scan/Tokens.antt =====
-- strspn, strcspn and strtok_r: runs of bytes in a set, and tokens between delimiters.
use jaclibc.Base.{
  ℕ, zero, suc, ◌+◌, ◌<◌, ◌≡◌, ◌≢◌, inl, inr, List, [], ◌∷◌, some, length, arith, ◌==◌,
  if◌then◌else◌, Bool, true, false, ◌||◌, not, ℕ_discrete, ◌∙◌, Bool-cases,
}
use jaclibc.Memory.{Memory, Ptr, IsString}
use jaclibc.Scan.{span_loop, strchr, find_char, strspn, strcspn}

abbrev pub contains : List ℕ → ℕ → Bool
contains [] c = false
contains (x ∷ xs) c = x == c || contains xs c

-- The length of the longest prefix whose bytes are in the set, or out of it.
abbrev pub run_length : Bool → List ℕ → List ℕ → ℕ
run_length want ds [] = 0
run_length want ds (c ∷ cs) =
    let more = suc (run_length want ds cs) in
    if (if want then contains ds c else not (contains ds c)) then more else 0

-- strchr on the set: NULL exactly where the byte is not in it.
find_char_in :
    (ds : List ℕ) (f : ℕ) (m : Memory) (s c : ℕ)
    → s ≢ 0
    → c ≢ 0
    → c < 256
    → IsString m s ds
    → length ds < f
    → (p : Ptr) × (find_char f m s c ≡ some p) × ((p == 0) ≡ not (contains ds c))
unfolding find_char
find_char_in ds zero m s c ns nc byte h lt = absurd (omega arith)
find_char_in [] (suc f) m s c ns nc byte h lt = (0, ground arith, ground arith)
find_char_in (d ∷ ds) (suc f) m s c ns nc byte h lt =
    let (p, run, null_iff) =
      find_char_in ds f m (s + 1) c (omega arith) nc byte h.2 (omega arith) in
    elim (ℕ_discrete d c) [
      | yes e ↦ (s, ground arith, ground arith)
      | no ne ↦ (p, ground (arith, h.1), ground arith)
    ]

abbrev pub AreBytes : List ℕ → Type 0
AreBytes [] = Unit
AreBytes (c ∷ cs) = (c < 256) × AreBytes cs

-- The loop's test on the result of strchr is the test of the set.
same_test :
    (want is_null inside : Bool)
    → is_null ≡ not inside
    → (if want then not is_null else is_null) ≡ (if want then inside else not inside)
same_test true is_null true h = ground arith
same_test true is_null false h = ground arith
same_test false is_null inside h = h

span_loop_lem :
    (want : Bool) (cs ds : List ℕ) (f g : ℕ) (m : Memory) (s set i p : ℕ)
    → set ≢ 0
    → p ≡ s + i
    → AreBytes cs
    → IsString m p cs
    → IsString m set ds
    → length cs < f
    → length ds < g
    → span_loop want f g m s set i ≡ some (i + run_length want ds cs)
unfolding span_loop strchr
span_loop_lem want cs ds zero g m s set i p ns e t h hd lt lg = absurd (omega arith)
span_loop_lem want [] ds (suc f) g m s set i p ns e t h hd lt lg = ground arith
span_loop_lem want (c ∷ cs) ds (suc f) g m s set i p ns e t h hd lt lg =
    let at : m (s + i) ≡ c = ground arith in
    let (q, run, null_iff) = find_char_in ds g m set c ns h.1 t.0 hd lg in
    let rest =
      span_loop_lem want cs ds f g m s set (i + 1) (p + 1) ns (omega arith) t.1 h.2 hd (omega arith)
        lg in
    let keep = same_test want (q == 0) (contains ds c) null_iff in
    let ne : (c == 0) ≡ false = ground (arith, h.1) in
    let nset : (set == 0) ≡ false = ground arith in
    rw (at, ne, nset, run)
      (rw keep (elim (Bool-cases (if want then contains ds c else not (contains ds c))) [
        | inl more ↦ rw more (rest ∙ ground arith)
        | inr done ↦ rw done (ground arith)
      ]))

-- strspn and strcspn return the length of the longest prefix of the string whose bytes all stand,
-- or all do not stand, in the set. No pointer is NULL; there is fuel for both strings.
pub strspn_lem :
    (cs ds : List ℕ) (f : ℕ) (m : Memory) (s set : Ptr)
    → s ≢ 0
    → set ≢ 0
    → AreBytes cs
    → IsString m s cs
    → IsString m set ds
    → length cs < f
    → length ds < f
    → (strspn f m s set ≡ some (run_length true ds cs))
      × (strcspn f m s set ≡ some (run_length false ds cs))
unfolding strspn strcspn
strspn_lem cs ds f m s set ns nset t h hd lt lg = (
  ground (arith, span_loop_lem true cs ds f f m s set 0 s nset (omega arith) t h hd lt lg),
  ground (arith, span_loop_lem false cs ds f f m s set 0 s nset (omega arith) t h hd lt lg),
)
