-- ===== src/Regex/Api.antt =====
-- include/regex.h: the interfaces of POSIX, PCRE2 and RE2 on the matcher. A pointer that is tested for NULL is
-- not NULL, and a string is its bytes in front of the NUL.
use jaclibc.Base.{
  ℕ, ◌+◌, ◌/◌, ◌%◌, Bool, true, false, ◌&&◌, ◌||◌, ◌==◌, Option, none, some, List, [], ◌∷◌, length,
  drop, ℤ, pos, negsuc,
}
use jaclibc.Regex.Nodes.{Matcher}
use jaclibc.Regex.Matcher.Exec.{ExecFlags, ExecResult, matched, failed, overrun, matchexec}

-- fl & bit, for a bit that is a power of two
abbrev pub has_flag : ℕ → ℕ → Bool
has_flag fl bit = fl / bit % 2 == 1

-- __reg_to_mexec and __pcre2_to_mexec, as far as the matcher reads the flags; it does not read MEXEC_MULTILINE.
unfoldable pub reg_to_mexec : ℕ → ExecFlags
reg_to_mexec fl = record {
  icase = has_flag fl 0x10;
  newline = has_flag fl 0x20;
  notbol = has_flag fl 0x40;
  noteol = has_flag fl 0x80;
}

unfoldable pub pcre2_to_mexec : ℕ → ExecFlags
pcre2_to_mexec opts = record {
  icase = has_flag opts 0x1;
  newline = false;
  notbol = has_flag opts 0x400;
  noteol = has_flag opts 0x800;
}

-- re->eflags | fl
unfoldable pub own_flags : Matcher → ExecFlags → ExecFlags
own_flags re fl = record {
  icase = re.icase || fl.icase;
  newline = re.newline || fl.newline;
  notbol = re.notbol || fl.notbol;
  noteol = re.noteol || fl.noteol;
}

-- matches[0].rm_so == 0 && matches[0].rm_eo == textlen
unfoldable pub covers : ℕ → List (Option ℕ × Option ℕ) → Bool
covers textlen [] = false
covers textlen ((some so, some eo) ∷ pm) = so == 0 && eo == textlen
covers textlen ((some so, none) ∷ pm) = false
covers textlen ((none, eo) ∷ pm) = false

abbrev pub no_flags : ExecFlags
no_flags = record { icase = false; newline = false; notbol = false; noteol = false }

module _ (is_named : List ℕ → ℕ → Bool) (towlower : ℕ → ℕ) (is_word : ℕ → Bool) where
  unfoldable pub regexec : Matcher → List ℕ → ℕ → ℕ → Option ExecResult
  regexec re s nm ef = matchexec is_named towlower is_word re s nm (own_flags re (reg_to_mexec ef))

  -- What it returns, and the matches where there are any: offsets from `start` on. The start offset is in
  -- the subject.
  unfoldable pub pcre2_match : Matcher → List ℕ → ℕ → ℕ → Option (ℤ × List (Option ℕ × Option ℕ))
  pcre2_match re subject startoffset options =
      elim (matchexec is_named towlower is_word re (drop startoffset subject) 32
        (pcre2_to_mexec options)) [
          | none ↦ none
          | some (matched pm) ↦ some (pos (re.nsub + 1), pm)
          | some (failed err) ↦ some (negsuc 0, [])
          | some overrun ↦ none
        ]

  unfoldable pub re2match : Matcher → List ℕ → Option Bool
  re2match re text = elim (matchexec is_named towlower is_word re text 1 (own_flags re no_flags)) [
    | none ↦ none
    | some (matched pm) ↦ some true
    | some (failed err) ↦ some false
    | some overrun ↦ none
  ]

  unfoldable pub re2fullmatch : Matcher → List ℕ → Option Bool
  re2fullmatch re text =
      elim (matchexec is_named towlower is_word re text 1 (own_flags re no_flags)) [
        | none ↦ none
        | some (matched pm) ↦ some (covers (length text) pm)
        | some (failed err) ↦ some false
        | some overrun ↦ none
      ]
