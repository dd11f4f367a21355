-- ===== src/Http/Feed/Pieces.antt =====
-- A request that arrives in pieces is parsed as if it came at once.
use jaclibc.Base.{
  ℕ, zero, suc, ◌+◌, ◌-◌, ◌≤◌, ◌<◌, true, false, Bool-cases, ltb, if◌then◌else◌, ◌&&◌, ◌==◌, ◌≡◌,
  ◌≢◌, ◌⊎◌, inl, inr, refl, sym, ◌∙◌, ap, subst, arith,
}
use mathlib.Core.Path.{fun_ext}
use jaclibc.Memory.{Memory}
use jaclibc.Http.{Text, FeedStatus, more}
use jaclibc.Http.Feed.{
  Parser, Fed, Session, Next, go, stop, end_line, text_at, end_of, line_done, feed_loop, http_feed,
}

-- The n first bytes of b, and what arrives behind them.
abbrev pub splice : ℕ → Memory → Memory → Memory
splice n b late q = if ltb q n then b q else late q

abbrev pub arrived : ℕ → Memory → Fed → Fed
arrived n late r = record r { buf = splice n r.buf late }

Next-cases :
    (x : Next) → ((p : Parser) × (x ≡ go p)) ⊎ ((st : FeedStatus) × (p : Parser) × (x ≡ stop st p))
Next-cases (go p) = inl (p, refl)
Next-cases (stop st p) = inr (st, p, refl)

text_at-splice :
    (n i : ℕ) (b late : Memory) (k p : ℕ)
    → p ≤ i
    → i < n
    → b i ≡ 0
    → text_at (splice n b late) p k ≡ text_at b p k
unfolding text_at
text_at-splice n i b late zero p le lt end = refl
text_at-splice n i b late (suc k) p le lt end = ground (arith, text_at-splice n i b late k (p + 1))

end_line-splice :
    (n i : ℕ) (b late : Memory)
    → i + 1 < n
    → end_line (splice n b late) i ≡ splice n (end_line b i) late
end_line-splice n i b late lt = fun_ext (λ q. ground arith)

end_line_text :
    (n i : ℕ) (b late : Memory) (k p : ℕ)
    → p ≤ i
    → i + 1 < n
    → text_at (end_line (splice n b late) i) p k ≡ text_at (end_line b i) p k
end_line_text n i b late k p le lt =
    ap (λ m. text_at m p k) (end_line-splice n i b late lt)
    ∙ text_at-splice n i (end_line b i) late k p le (omega arith) (ground arith)

module _ (strtoul : Text → ℕ) (size : ℕ) where
  line_done-splice :
      (n i : ℕ) (p : Parser) (b late : Memory)
      → i + 1 < n
      → p.line_start ≤ i
      → line_done strtoul size p (splice n b late) i ≡ line_done strtoul size p b i
  unfolding line_done
  line_done-splice n i p b late lt le =
      ap (λ line. end_of strtoul size p line i)
        (end_line_text n i b late (size - p.line_start) p.line_start le lt)

  end_of-go :
      (i : ℕ) (p p' : Parser) (line : Text)
      → end_of strtoul size p line i ≡ go p'
      → p'.line_start ≤ i + 2
  unfolding end_of
  end_of-go i p p' line e = ground arith

  end_of-stop :
      (i : ℕ) (p p' : Parser) (line : Text) (st : FeedStatus)
      → end_of strtoul size p line i ≡ stop st p'
      → st ≢ more
  unfolding end_of
  end_of-stop i p p' line st e = ground arith

  line_done-stop :
      (i : ℕ) (p p' : Parser) (b : Memory) (st : FeedStatus)
      → line_done strtoul size p b i ≡ stop st p'
      → st ≢ more
  unfolding line_done
  line_done-stop i p p' b st d =
      end_of-stop i p p' (text_at (end_line b i) p.line_start (size - p.line_start)) st d

  line_done-go :
      (i : ℕ) (p p' : Parser) (b : Memory)
      → line_done strtoul size p b i ≡ go p'
      → p'.line_start ≤ i + 2
  unfolding line_done
  line_done-go i p p' b d =
      end_of-go i p p' (text_at (end_line b i) p.line_start (size - p.line_start)) d

  -- The rounds of the loop.
  feed_loop-short :
      (left i : ℕ) (p : Parser) (b : Memory)
      → left < 2
      → feed_loop strtoul size left i p b
        ≡ record { stat = more; parser = p; buf = b; consumed = i }
  unfolding feed_loop
  feed_loop-short zero i p b lt = refl
  feed_loop-short (suc zero) i p b lt = refl
  feed_loop-short (suc (suc left)) i p b lt = absurd (omega arith)

  feed_loop-on :
      (left k i : ℕ) (p : Parser) (b : Memory)
      → left ≡ suc (suc k)
      → (b i == 13 && b (i + 1) == 10) ≡ false
      → feed_loop strtoul size left i p b ≡ feed_loop strtoul size (suc k) (i + 1) p b
  unfolding feed_loop
  feed_loop-on left k i p b split e = ap (λ l. feed_loop strtoul size l i p b) split ∙ ground arith

  feed_loop-go :
      (left k i : ℕ) (p p' : Parser) (b : Memory)
      → left ≡ suc (suc k)
      → (b i == 13 && b (i + 1) == 10) ≡ true
      → line_done strtoul size p b i ≡ go p'
      → feed_loop strtoul size left i p b ≡ feed_loop strtoul size k (i + 2) p' (end_line b i)
  unfolding feed_loop
  feed_loop-go left k i p p' b split e d =
      ap (λ l. feed_loop strtoul size l i p b) split ∙ ground arith

  feed_loop-stop :
      (left k i : ℕ) (p p' : Parser) (b : Memory) (st : FeedStatus)
      → left ≡ suc (suc k)
      → (b i == 13 && b (i + 1) == 10) ≡ true
      → line_done strtoul size p b i ≡ stop st p'
      → feed_loop strtoul size left i p b
        ≡ record { stat = st; parser = p'; buf = end_line b i; consumed = i + 2 }
  unfolding feed_loop
  feed_loop-stop left k i p p' b st split e d =
      ap (λ l. feed_loop strtoul size l i p b) split ∙ ground arith

  -- Bytes behind the n first ones have no part in it.
  feed_loop-splice :
      (left i n : ℕ) (p : Parser) (b late : Memory)
      → i + left ≤ n
      → p.line_start ≤ i
      → feed_loop strtoul size left i p (splice n b late)
        ≡ arrived n late (feed_loop strtoul size left i p b)
  feed_loop-splice zero i n p b late total le =
      feed_loop-short 0 i p (splice n b late) (omega arith)
      ∙ ap (arrived n late) (sym (feed_loop-short 0 i p b (omega arith)))
  feed_loop-splice (suc zero) i n p b late total le =
      feed_loop-short 1 i p (splice n b late) (omega arith)
      ∙ ap (arrived n late) (sym (feed_loop-short 1 i p b (omega arith)))
  feed_loop-splice (suc (suc left)) i n p b late total le =
      elim (Bool-cases (b i == 13 && b (i + 1) == 10)) [
        | inr e ↦
            feed_loop-on (suc (suc left)) left i p (splice n b late) refl (ground arith)
            ∙ feed_loop-splice (suc left) (i + 1) n p b late (omega arith) (omega arith)
            ∙ ap (arrived n late) (sym (feed_loop-on (suc (suc left)) left i p b refl e))
        | inl e ↦ elim (Next-cases (line_done strtoul size p b i)) [
          | inl (p', d) ↦
              feed_loop-go (suc (suc left)) left i p p' (splice n b late) refl (ground arith)
                (line_done-splice n i p b late (omega arith) le ∙ d)
              ∙ ap (feed_loop strtoul size left (i + 2) p')
                  (end_line-splice n i b late (omega arith))
              ∙ feed_loop-splice left (i + 2) n p' (end_line b i) late (omega arith)
                  (line_done-go i p p' b d)
              ∙ ap (arrived n late) (sym (feed_loop-go (suc (suc left)) left i p p' b refl e d))
          | inr (st, p', d) ↦
              feed_loop-stop (suc (suc left)) left i p p' (splice n b late) st refl (ground arith)
                (line_done-splice n i p b late (omega arith) le ∙ d)
              ∙ ap (λ m. record { stat = st; parser = p'; buf = m; consumed = i + 2 })
                  (end_line-splice n i b late (omega arith))
              ∙ ap (arrived n late)
                  (sym (feed_loop-stop (suc (suc left)) left i p p' b st refl e d))
        ]
      ]

  abbrev Resumes : ℕ → ℕ → Fed → Fed → Type 0
  Resumes n m r whole =
      ((r.stat ≡ more)
        × (feed_loop strtoul size (n + m - r.consumed) r.consumed r.parser r.buf ≡ whole))
      ⊎ ((r.stat ≢ more) × (whole ≡ r))

  Resumes-both : (n m : ℕ) (r r' w w' : Fed) → r ≡ r' → w ≡ w' → Resumes n m r' w' → Resumes n m r w
  Resumes-both n m r r' w w' e1 e2 h =
      subst (λ x. Resumes n m x w) (sym e1) (subst (λ x. Resumes n m r' x) (sym e2) h)

  feed_loop-short-Resumes :
      (left i n m : ℕ) (p : Parser) (b : Memory)
      → left < 2
      → i + left ≡ n
      → Resumes n m (feed_loop strtoul size left i p b) (feed_loop strtoul size (left + m) i p b)
  feed_loop-short-Resumes left i n m p b lt total =
      subst (λ r. Resumes n m r (feed_loop strtoul size (left + m) i p b))
        (sym (feed_loop-short left i p b lt))
        (inl (refl, ap (λ k. feed_loop strtoul size k i p b) (omega arith)))

  feed_loop-Resumes :
      (left i n m : ℕ) (p : Parser) (b : Memory)
      → i + left ≡ n
      → Resumes n m (feed_loop strtoul size left i p b) (feed_loop strtoul size (left + m) i p b)
  feed_loop-Resumes zero i n m p b total = feed_loop-short-Resumes 0 i n m p b (omega arith) total
  feed_loop-Resumes (suc zero) i n m p b total =
      feed_loop-short-Resumes 1 i n m p b (omega arith) total
  feed_loop-Resumes (suc (suc left)) i n m p b total =
      elim (Bool-cases (b i == 13 && b (i + 1) == 10)) [
        | inr e ↦
            Resumes-both n m _ _ _ _ (feed_loop-on (suc (suc left)) left i p b refl e)
              (feed_loop-on (suc (suc left) + m) (left + m) i p b (omega arith) e)
              (subst
                (λ k.
                  Resumes n m (feed_loop strtoul size (suc left) (i + 1) p b)
                    (feed_loop strtoul size k (i + 1) p b))
                (omega arith) (feed_loop-Resumes (suc left) (i + 1) n m p b (omega arith)))
        | inl e ↦ elim (Next-cases (line_done strtoul size p b i)) [
          | inl (p', d) ↦
              Resumes-both n m _ _ _ _ (feed_loop-go (suc (suc left)) left i p p' b refl e d)
                (feed_loop-go (suc (suc left) + m) (left + m) i p p' b (omega arith) e d)
                (feed_loop-Resumes left (i + 2) n m p' (end_line b i) (omega arith))
          | inr (st, p', d) ↦
              Resumes-both n m _ _ _ _ (feed_loop-stop (suc (suc left)) left i p p' b st refl e d)
                (feed_loop-stop (suc (suc left) + m) (left + m) i p p' b st (omega arith) e d)
                (inr (line_done-stop i p p' b st d, refl))
        ]
      ]

  abbrev new_offset : ℕ → Fed → ℕ
  new_offset o r = elim r.stat [ more ↦ r.consumed | other ↦ o ]

  -- With the offset that http_feed stores.
  Resumes-offset :
      (n m o : ℕ) (r whole : Fed) (late : Memory)
      → Resumes n m (arrived n late r) whole
      → ((r.stat ≡ more)
          × (feed_loop strtoul size
                (n + m - new_offset o r)
                (new_offset o r)
                r.parser
                (splice n r.buf late)
              ≡ whole))
        ⊎ ((r.stat ≢ more) × (whole ≡ arrived n late r))
  Resumes-offset n m o r whole late (inl (e, h)) = inl (
    e,
    subst (λ k. feed_loop strtoul size (n + m - k) k r.parser (splice n r.buf late) ≡ whole)
        (ground arith) h,
  )
  Resumes-offset n m o r whole late (inr h) = inr h

  -- The bytes b are fed as far as n, then as far as n + m, where what arrived behind the n first ones is
  -- late. Where the first call asks for more, the second one gives the result, the request, the start
  -- of the line, the phase, the buffer and the number of bytes read that one call with all of them gives. Else
  -- one call with all of them gives these as the first one does. The offsets that are stored for a later call are
  -- not compared: they differ where the request ends in the second call. The start of the line must not be behind the
  -- offset, nor the offset behind n.
  pub http_feed_in_pieces :
      (n m : ℕ) (s : Session) (b late : Memory)
      → s.offset ≤ n
      → s.parser.line_start ≤ s.offset
      → let (r, o) = http_feed strtoul size n s b in
        let (whole, _) = http_feed strtoul size (n + m) s (splice n b late) in
        let (second, _) =
          http_feed strtoul size
            (n + m)
            (record { parser = r.parser; offset = o })
            (splice n r.buf late) in
        ((r.stat ≡ more) × (second ≡ whole)) ⊎ ((r.stat ≢ more) × (whole ≡ arrived n late r))
  unfolding http_feed
  http_feed_in_pieces n m s b late le start =
      Resumes-offset n m s.offset (feed_loop strtoul size (n - s.offset) s.offset s.parser b) _ late
        (Resumes-both n m _ _ _ _
          (sym (feed_loop-splice (n - s.offset) s.offset n s.parser b late (omega arith) start))
          (ap (λ k. feed_loop strtoul size k s.offset s.parser (splice n b late)) (omega arith))
          (feed_loop-Resumes (n - s.offset) s.offset n m s.parser (splice n b late) (omega arith)))
