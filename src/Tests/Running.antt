-- ===== src/Tests/Running.antt =====
-- Runs of the matcher of include/core/match.h and of the translation in include/regex.h.
use Prim.{tt}
use jaclibc.Base.{
  ℕ, zero, suc, ◌≡◌, ◌≢◌, Bool, true, false, some, none, List, [], ◌∷◌, replicate, get_or, refl,
  arith, length, ltb,
}
use jaclibc.Regex.{Ranges, utf8_next, match_fold}
use jaclibc.Regex.Nodes.{Token, end, char, seq, rep, alt, Node, Matcher, nomatch, next_at}
use jaclibc.Regex.Prims.{prim_char, prim_rep, prim_alt, rep_grow, rep_try, seq_loop}
use jaclibc.Regex.Matcher.{dispatch, matchfind}
use jaclibc.Regex.Matcher.Exec.{
  ExecResult, matched, failed, exec_subject, matchgate, group_offsets, store_offsets, exec_loop,
  matchexec,
}
use jaclibc.Regex.Matcher.Spec.{IsPlain, IsSettled, IsFlat}
use jaclibc.Regex.Matcher.Found.{IsRight, matchexec_sound}
use jaclibc.Regex.Matcher.Loops.{IsBuilt}
use jaclibc.Regex.Matcher.Gate.{IsFirst, matchgate_lem}
use jaclibc.Regex.Matcher.Total.{HasReport, matchexec_total}
use jaclibc.Regex.Matcher.Long.{matchexec_long}
use jaclibc.Regex.Basic.{is_special, bre_loop, bre_trans}
use jaclibc.Regex.Basic.Pieces.{bre_trans_lem, bre_trans_full}
use jaclibc.Regex.Api.{own_flags, covers, re2fullmatch, no_flags}

abbrev no_ranges : Ranges
no_ranges = record {
  nr = 0;
  rlo = λ i. 0;
  rhi = λ i. 0;
  rcid = λ i. 0;
  rneg = λ i. false;
  cname = λ i. none;
  has_unicode = false;
}

-- No name is known, no letter has another case, and no character is in a word.
abbrev unnamed : List ℕ → ℕ → Bool
unnamed name cp = false

abbrev same_case : ℕ → ℕ
same_case cp = cp

abbrev no_word : ℕ → Bool
no_word cp = false

abbrev node : Token → ℕ → ℕ → ℕ → ℕ → ℕ → Node
node type val a b least most = record {
  type = type;
  val = val;
  a = a;
  b = b;
  neg = false;
  cap_id = 0;
  least = least;
  most = most;
  lazy = false;
  dotall = false;
  icase = false;
}

abbrev compiled : (ℕ → Node) → ℕ → List ℕ → Matcher
compiled arena root lit = record {
  arena = arena;
  root = root;
  groups = λ i. 0;
  ranges = no_ranges;
  lit = lit;
  icase = false;
  newline = false;
  notbol = false;
  noteol = false;
  nsub = 0;
}

-- a*a: the nodes 1 to 4, with the sequence behind its parts.
abbrev star_arena : ℕ → Node
star_arena i =
    get_or
      (node end 0 0 0 0 0
        ∷ node char b'a' 0 0 0 0
        ∷ node rep 0 1 0 0 255
        ∷ node char b'a' 0 0 0 0
        ∷ node seq 0 2 3 0 0
        ∷ [])
      i (node end 0 0 0 0 0)

abbrev star_then : Matcher
star_then = compiled star_arena 4 []

star_then-IsBuilt : IsBuilt star_arena
star_then-IsBuilt zero e = absurd (ground (arith, e))
star_then-IsBuilt (suc zero) e = absurd (ground (arith, e))
star_then-IsBuilt (suc (suc zero)) e = absurd (ground (arith, e))
star_then-IsBuilt (suc (suc (suc zero))) e = absurd (ground (arith, e))
star_then-IsBuilt (suc (suc (suc (suc zero)))) e = omega arith
star_then-IsBuilt (suc (suc (suc (suc (suc i))))) e = absurd (ground (arith, e))

abbrev letters : ℕ → List ℕ
letters n = replicate n b'a'

-- The repetition takes all, and gives nothing back to what follows it in the sequence.
greedy_star :
    matchexec unnamed same_case no_word star_then (letters 2) 1 no_flags ≡ some (failed nomatch)
unfolding matchexec exec_loop matchfind dispatch seq_loop prim_rep rep_grow rep_try prim_char
    match_fold matchgate next_at utf8_next
greedy_star = refl

matchexec_total_example :
    HasReport 2 1 (matchexec unnamed same_case no_word star_then (letters 2) 1 no_flags)
matchexec_total_example =
    matchexec_total unnamed same_case no_word star_then (letters 2) 1 no_flags star_then-IsBuilt

-- a|ab: the first part that matches is taken, so that ab is not found to be all of the text.
abbrev choice_arena : ℕ → Node
choice_arena i =
    get_or
      (node end 0 0 0 0 0
        ∷ node char b'a' 0 0 0 0
        ∷ node char b'a' 0 0 0 0
        ∷ node char b'b' 0 0 0 0
        ∷ node seq 0 2 3 0 0
        ∷ node alt 0 1 4 0 0
        ∷ [])
      i (node end 0 0 0 0 0)

first_choice :
    re2fullmatch unnamed same_case no_word (compiled choice_arena 5 []) (b'a' ∷ b'b' ∷ [])
    ≡ some false
unfolding re2fullmatch covers own_flags matchexec exec_loop matchfind dispatch seq_loop prim_alt
    prim_char match_fold matchgate next_at utf8_next store_offsets group_offsets
first_choice = refl

-- (a*b)* with the offsets of the inner repetition stored over those of the outer one: aba is found to be a match.
abbrev nested_arena : ℕ → Node
nested_arena i =
    get_or
      (node end 0 0 0 0 0
        ∷ node char b'a' 0 0 0 0
        ∷ node rep 0 1 0 0 255
        ∷ node char b'b' 0 0 0 0
        ∷ node seq 0 2 3 0 0
        ∷ node rep 0 4 0 0 255
        ∷ [])
      i (node end 0 0 0 0 0)

nested_star :
    re2fullmatch unnamed same_case no_word (compiled nested_arena 5 []) (b'a' ∷ b'b' ∷ b'a' ∷ [])
    ≡ some true
unfolding re2fullmatch covers own_flags matchexec exec_loop matchfind dispatch seq_loop prim_rep
    rep_grow rep_try prim_char match_fold matchgate next_at utf8_next store_offsets group_offsets
nested_star = refl

abbrev one_arena : ℕ → Node
one_arena i = get_or (node end 0 0 0 0 0 ∷ node char b'b' 0 0 0 0 ∷ []) i (node end 0 0 0 0 0)

one_arena-IsBuilt : IsBuilt one_arena
one_arena-IsBuilt zero e = absurd (ground (arith, e))
one_arena-IsBuilt (suc zero) e = absurd (ground (arith, e))
one_arena-IsBuilt (suc (suc i)) e = absurd (ground (arith, e))

matchexec_long_example :
    matchexec unnamed same_case no_word (compiled one_arena 1 []) (letters 2001) 1 no_flags
    ≢ some (failed nomatch)
matchexec_long_example =
    matchexec_long unnamed same_case no_word (compiled one_arena 1 []) (letters 2001) 1 no_flags
      one_arena-IsBuilt (ground arith) (ground arith) refl refl

matchgate_lem_example :
    IsFirst false
      (b'a' ∷ b'b' ∷ [])
      (b'x' ∷ b'a' ∷ b'b' ∷ [])
      0
      (matchgate false (b'a' ∷ b'b' ∷ []) (b'x' ∷ b'a' ∷ b'b' ∷ []))
matchgate_lem_example = matchgate_lem false (b'a' ∷ b'b' ∷ []) (b'x' ∷ b'a' ∷ b'b' ∷ [])

-- The basic pattern of a, a quoted parenthesis and a period.
bre_trans_lem_example :
    bre_trans (b'a' ∷ b'\\' ∷ b'(' ∷ b'.' ∷ []) 16 ≡ b'a' ∷ b'(' ∷ b'\\' ∷ b'.' ∷ []
unfolding is_special
bre_trans_lem_example =
    bre_trans_lem 16 ((false, b'a') ∷ (true, b'(') ∷ (false, b'.') ∷ []) (refl, (refl, (refl, tt)))
      (omega arith)

bre_trans_full_run : length (bre_trans (b'a' ∷ b'a' ∷ b'.' ∷ []) 4) ≡ 4
bre_trans_full_run = bre_trans_full 2

-- A quoted backslash becomes a backslash that quotes what follows it.
lost_backslash : bre_trans (b'\\' ∷ b'\\' ∷ b'd' ∷ []) 16 ≡ b'\\' ∷ b'd' ∷ []
unfolding bre_trans bre_loop is_special
lost_backslash = refl

-- a*b, whose repetition has the one letter as its part.
abbrev run_arena : ℕ → Node
run_arena i =
    get_or
      (node end 0 0 0 0 0
        ∷ node char b'a' 0 0 0 0
        ∷ node rep 0 1 0 0 255
        ∷ node char b'b' 0 0 0 0
        ∷ node seq 0 2 3 0 0
        ∷ [])
      i (node end 0 0 0 0 0)

abbrev run_pattern : Matcher
run_pattern = compiled run_arena 4 []

abbrev in_star : ℕ → Bool
in_star i = ltb i 2

run_arena-IsBuilt : IsBuilt run_arena
run_arena-IsBuilt zero = λ e. absurd (ground (arith, e))
run_arena-IsBuilt (suc zero) = λ e. absurd (ground (arith, e))
run_arena-IsBuilt (suc (suc zero)) = λ e. absurd (ground (arith, e))
run_arena-IsBuilt (suc (suc (suc zero))) = λ e. absurd (ground (arith, e))
run_arena-IsBuilt (suc (suc (suc (suc zero)))) = λ e. omega arith
run_arena-IsBuilt (suc (suc (suc (suc (suc i))))) = λ e. absurd (ground (arith, e))

run_arena-IsPlain : IsPlain run_arena
run_arena-IsPlain zero = refl
run_arena-IsPlain (suc zero) = refl
run_arena-IsPlain (suc (suc zero)) = refl
run_arena-IsPlain (suc (suc (suc zero))) = refl
run_arena-IsPlain (suc (suc (suc (suc zero)))) = refl
run_arena-IsPlain (suc (suc (suc (suc (suc i))))) = refl

run_arena-IsSettled : IsSettled run_arena false
run_arena-IsSettled zero = refl
run_arena-IsSettled (suc zero) = refl
run_arena-IsSettled (suc (suc zero)) = refl
run_arena-IsSettled (suc (suc (suc zero))) = refl
run_arena-IsSettled (suc (suc (suc (suc zero)))) = refl
run_arena-IsSettled (suc (suc (suc (suc (suc i))))) = refl

run_arena-IsFlat : IsFlat run_arena in_star
run_arena-IsFlat zero = (λ e. absurd (ground (arith, e)), λ e. (refl, refl, refl))
run_arena-IsFlat (suc zero) = (λ e. absurd (ground (arith, e)), λ e. (refl, refl, refl))
run_arena-IsFlat (suc (suc zero)) = (λ e. (refl, refl), λ e. absurd (ground (arith, e)))
run_arena-IsFlat (suc (suc (suc zero))) =
    (λ e. absurd (ground (arith, e)), λ e. absurd (ground (arith, e)))
run_arena-IsFlat (suc (suc (suc (suc zero)))) =
    (λ e. absurd (ground (arith, e)), λ e. absurd (ground (arith, e)))
run_arena-IsFlat (suc (suc (suc (suc (suc i))))) =
    (λ e. absurd (ground (arith, e)), λ e. absurd (ground (arith, e)))

abbrev run_text : List ℕ
run_text = b'x' ∷ b'a' ∷ b'a' ∷ b'b' ∷ []

matchexec_sound_example :
    (r : ExecResult) × (matchexec unnamed same_case no_word run_pattern run_text 1 no_flags
      ≡ some r)
    × IsRight unnamed same_case no_word (exec_subject run_pattern no_flags run_text) false r
matchexec_sound_example =
    matchexec_sound unnamed same_case no_word run_pattern run_text 0 no_flags in_star
      run_arena-IsBuilt run_arena-IsFlat run_arena-IsPlain run_arena-IsSettled

-- In xaab it is found from 1 to 4.
run_found :
    matchexec unnamed same_case no_word run_pattern run_text 1 no_flags
    ≡ some (matched ((some 1, some 4) ∷ []))
unfolding matchexec exec_loop matchfind dispatch seq_loop prim_rep rep_grow rep_try prim_char
    match_fold matchgate next_at utf8_next store_offsets group_offsets
run_found = refl
