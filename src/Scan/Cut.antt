-- ===== src/Scan/Cut.antt =====
-- strtok_r: the token that one call cuts off.
use jaclibc.Base.{
  ℕ, zero, suc, ◌+◌, ◌≤◌, ◌<◌, ◌≡◌, ◌≢◌, inl, inr, List, [], ◌∷◌, some, length, arith, refl, ◌==◌,
  if◌then◌else◌, Bool, true, false, take, drop, ◌∙◌, sym, Bool-cases, length-drop, ==_iff,
  false≢true,
}
use native.Mathlib.Nat.{add_assoc}
use jaclibc.Memory.{Memory, Ptr, IsString, store}
use jaclibc.Memory.Regions.{IsString-frame}
use jaclibc.Scan.{cut_token, strtok_r, Token}
use jaclibc.Scan.Tokens.{AreBytes, run_length, strspn_lem}
use jaclibc.Str.Bounded.{IsString-take}

IsString-drop :
    (k : ℕ) (cs : List ℕ) (m : Memory) (s : Ptr)
    → k ≤ length cs
    → IsString m s cs
    → IsString m (s + k) (drop k cs)
IsString-drop zero cs m s le h = let e : s + 0 ≡ s = omega arith in rw e h
IsString-drop (suc k) [] m s le h = absurd (omega arith)
IsString-drop (suc k) (c ∷ cs) m s le h =
    let e : s + 1 + k ≡ s + suc k = omega arith in
    rw e at (IsString-drop k cs m (s + 1) (omega arith) h.2)

AreBytes-drop : (k : ℕ) (cs : List ℕ) → AreBytes cs → AreBytes (drop k cs)
AreBytes-drop zero cs h = h
AreBytes-drop (suc k) [] h = h
AreBytes-drop (suc k) (c ∷ cs) h = AreBytes-drop k cs h.1

run_length-le : (want : Bool) (ds cs : List ℕ) → run_length want ds cs ≤ length cs
run_length-le want ds [] = omega arith
run_length-le want ds (c ∷ cs) = ground (arith, run_length-le want ds cs)

-- The first byte behind a run, for the run of a string that does not fill it, is no NUL.
head_of : (cs : List ℕ) (m : Memory) (p k : ℕ) → IsString m p cs → (m p == 0) ≡ (length cs == 0)
head_of [] m p k h = ground arith
head_of (c ∷ cs) m p k h = ground (arith, h.1)

IsString-end :
    (k : ℕ) (cs : List ℕ) (m : Memory) (p : Ptr)
    → length cs ≤ k
    → m p ≡ 0
    → IsString m p (drop k cs)
IsString-end zero [] m p le h = h
IsString-end zero (c ∷ cs) m p le h = absurd (omega arith)
IsString-end (suc k) [] m p le h = h
IsString-end (suc k) (c ∷ cs) m p le h = IsString-end k cs m p (omega arith) h

-- The token at p is the run of bytes that are no delimiters, and the rest starts one byte behind it.
cut_token_lem :
    (cs ds : List ℕ) (f : ℕ) (m : Memory) (p delim : Ptr)
    → p ≢ 0
    → delim ≢ 0
    → AreBytes cs
    → IsString m p cs
    → IsString m delim ds
    → 0 < length cs
    → length cs < f
    → length ds < f
    → let n = run_length false ds cs in
      (t : Token) × (cut_token f m p delim ≡ some t)
      × (t.start ≡ p)
      × IsString t.mem t.start (take n cs)
      × IsString t.mem t.save (drop (n + 1) cs)
      × ((q : Ptr) → q ≢ p + n → t.mem q ≡ m q)
unfolding cut_token
cut_token_lem cs ds f m p delim np nd text h hd some_left lt lg =
    let n = run_length false ds cs in
    let le = run_length-le false ds cs in
    let run = (strspn_lem cs ds f m p delim np nd text h hd lt lg).1 in
    let tail = IsString-drop n cs m p le h in
    let stop = head_of (drop n cs) m (p + n) 0 tail in
    elim (Bool-cases (m (p + n) == 0)) [
      | inl end ↦ (
        record { start = p; save = p + n; mem = m },
        ground (arith, head_of cs m p 0 h),
        refl,
        IsString-take cs n m m p p le h (λ j lt'. refl) (ground arith),
        IsString-end (n + 1) cs m (p + n)
            (omega (arith, length-drop n cs, (==_iff _ _).0 (sym stop ∙ end))) (ground arith),
        λ q ne. refl,
      )
      | inr more ↦ (
        record { start = p; save = p + n + 1; mem = store m (p + n) 0 },
        ground (arith, head_of cs m p 0 h),
        refl,
        IsString-take cs n m (store m (p + n) 0) p p le h (λ j lt'. ground arith) (ground arith),
        IsString-frame (drop (n + 1) cs) m (store m (p + n) 0) (p + n + 1) (λ q lo hi. ground arith)
            (behind (λ e. false≢true (sym more ∙ stop ∙ (==_iff _ _).1 e))),
        λ q ne. ground arith,
      )
    ]
  where
    behind :
        ¬ (length (drop (run_length false ds cs) cs) ≡ 0)
        → IsString m (p + run_length false ds cs + 1) (drop (run_length false ds cs + 1) cs)
    behind ne = rw (← add_assoc p (run_length false ds cs) 1) at (
        IsString-drop (run_length false ds cs + 1) cs m p
          (omega (arith, length-drop (run_length false ds cs) cs)) h)

module _ (cs ds : List ℕ) (f : ℕ) (m : Memory) (s delim save p : Ptr)
    (from : (if s == 0 then save else s) ≡ p) (np : p ≢ 0) (nd : delim ≢ 0) (text : AreBytes cs)
    (h : IsString m p cs) (hd : IsString m delim ds) (lt : length cs < f) (lg : length ds < f) where
  skip_run :
      (t : Token)
      → cut_token f m (p + run_length true ds cs) delim ≡ some t
      → strtok_r f m s delim save ≡ some t
  unfolding strtok_r
  skip_run t cut =
      let run = (strspn_lem cs ds f m p delim np nd text h hd lt lg).0 in
      let e : (delim == 0) ≡ false = ground arith in
      let e' : (p == 0) ≡ false = ground arith in rw (from, e, e', run) cut

  -- strtok_r, called with a string or with NULL to go on from the saved pointer, skips the
  -- delimiters, returns the run of other bytes behind them as a string of its own and saves where the
  -- rest begins, one byte behind the token; only the delimiter that follows the token is overwritten.
  -- Some byte of the text is no delimiter, no pointer is NULL, and there is fuel for both strings.
  pub strtok_r_lem :
      run_length true ds cs < length cs
      → let rest = drop (run_length true ds cs) cs in
        (t : Token) × (strtok_r f m s delim save ≡ some t)
        × (t.start ≡ p + run_length true ds cs)
        × IsString t.mem t.start (take (run_length false ds rest) rest)
        × IsString t.mem t.save (drop (run_length false ds rest + 1) rest)
        × ((q : Ptr) → q ≢ p + run_length true ds cs + run_length false ds rest → t.mem q ≡ m q)
  unfolding strtok_r
  strtok_r_lem left =
      let n = run_length true ds cs in
      let token =
        cut_token_lem (drop n cs) ds f m (p + n) delim (omega arith) nd (AreBytes-drop n cs text)
          (IsString-drop n cs m p (run_length-le true ds cs) h) hd (omega (arith, length-drop n cs))
          (omega (arith, length-drop n cs)) lg in
      (token.0, skip_run token.0 token.1, token.2, token.3, token.4, token.5)

  -- Where every byte of the text is a delimiter strtok_r returns NULL, saves NULL and writes nothing,
  -- under the same conditions.
  pub strtok_r_end :
      run_length true ds cs ≡ length cs
      → strtok_r f m s delim save ≡ some (record { start = 0; save = 0; mem = m })
  unfolding strtok_r cut_token
  strtok_r_end all =
      let end : (m (p + run_length true ds cs) == 0) ≡ true =
        head_of (drop (run_length true ds cs) cs) m (p + run_length true ds cs) 0
          (IsString-drop (run_length true ds cs) cs m p (run_length-le true ds cs) h)
        ∙ (==_iff _ 0).1 (omega (arith, length-drop (run_length true ds cs) cs)) in
      skip_run (record { start = 0; save = 0; mem = m }) (rw end)
