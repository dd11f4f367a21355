-- ===== src/Regex/Nodes.antt =====
-- include/regex.h and include/core/match.h: the nodes of a compiled pattern, the matcher and its context, and the
-- steps over the bytes of a subject. The subject is its bytes, a pointer into it is an offset, and NULL is
-- `none`; an offset of -1 in the captures is `none` as well.
use jaclibc.Base.{
  ℕ, zero, suc, ◌+◌, ◌-◌, ◌/◌, Bool, true, false, ◌==◌, if◌then◌else◌, Option, none, some, List,
  min, length, take, drop, get_or,
}
use jaclibc.Regex.{Ranges, utf8_next}

-- match_tok_t
pub data Token : Type 0 where
  end char class any bol eol cap alt seq rep look backref wb nwb flags atomic cond call : Token

-- The flags of a node are those that are read.
pub record Node : Type 0 where
  pub type : Token
  pub val : ℕ
  pub a : ℕ
  pub b : ℕ
  pub neg : Bool
  pub cap_id : ℕ
  pub least : ℕ
  pub most : ℕ
  pub lazy : Bool
  pub dotall : Bool
  pub icase : Bool

-- What matcher_t has for the matcher, less nlit, the length of lit. The flags are those of eflags that are read;
-- nsub is m_nsub.
pub record Matcher : Type 0 where
  pub arena : ℕ → Node
  pub root : ℕ
  pub groups : ℕ → ℕ
  pub ranges : Ranges
  pub lit : List ℕ
  pub icase : Bool
  pub newline : Bool
  pub notbol : Bool
  pub noteol : Bool
  pub nsub : ℕ

-- The fields of match_ctx_t that no call changes.
pub record Subject : Type 0 where
  pub m : Matcher
  pub s : List ℕ
  pub nl : Bool
  pub notbol : Bool
  pub noteol : Bool

-- M_SUCCESS, M_NOMATCH, M_EDEPTH and M_EINTERNAL
pub data Err : Type 0 where
  success nomatch edepth einternal : Err

abbrev pub Caps : Type 0
Caps = ℕ → Option ℕ

-- The other fields, and the workspace.
pub record Ctx : Type 0 where
  pub caps : Caps
  pub depth : ℕ
  pub err : Err
  pub ic : Bool
  pub path : ℕ → ℕ
  pub cpath : ℕ → Caps

-- matchfind: the context it leaves and its result; the outer `none` is out of fuel.
abbrev pub Find : Type 0
Find = Ctx → ℕ → ℕ → Option (Ctx × Option ℕ)

abbrev pub max_depth : ℕ
max_depth = 2000

-- MATCH_MAX_BACKTRACK
abbrev pub max_backtrack : ℕ
max_backtrack = 255

-- MATCH_MAX_GROUPS * 2
abbrev pub max_offsets : ℕ
max_offsets = 64

abbrev pub is_success : Err → Bool
is_success success = true
is_success nomatch = false
is_success edepth = false
is_success einternal = false

abbrev pub is_edepth : Err → Bool
is_edepth success = false
is_edepth nomatch = false
is_edepth edepth = true
is_edepth einternal = false

abbrev pub is_seq : Token → Bool
is_seq t = elim t [ seq ↦ true | other ↦ false ]

-- JACL_UTF8_CONT
abbrev pub is_cont : ℕ → Bool
is_cont b = b / 64 == 2

-- __jacl_match_utf8_next from pos, with its end: the code, and the offset behind it.
unfoldable pub next_at : List ℕ → ℕ → ℕ → ℕ × ℕ
next_at s limit pos =
    let (cp, rest) = utf8_next (drop pos (take limit s)) in (cp, min limit (length s) - length rest)

-- while (b >= 0x80 && next < c->end && JACL_UTF8_CONT(next)) next++, with `left` bytes to the end.
unfoldable pub skip_tails : ℕ → List ℕ → ℕ → ℕ
skip_tails zero s next = next
skip_tails (suc left) s next =
    let rest = skip_tails left s (next + 1) in if is_cont (get_or s next 0) then rest else next

-- while (cp > c->s && JACL_UTF8_CONT(cp)) cp--
unfoldable pub skip_back : List ℕ → ℕ → ℕ
skip_back s zero = 0
skip_back s (suc p) =
    let rest = skip_back s p in if is_cont (get_or s (suc p) 0) then rest else suc p

-- What is done with the context and the result of a call, by whether there is a result.
abbrev pub after {ℓ} :
    {B : Type ℓ} → Option (Ctx × Option ℕ) → (Ctx → Option B) → (Ctx → ℕ → Option B) → Option B
after none miss hit = none
after (some (c, none)) miss hit = miss c
after (some (c, some r)) miss hit = hit c r
