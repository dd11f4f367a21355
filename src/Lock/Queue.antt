-- ===== src/Lock/Queue.antt =====
-- Each step of the threads is a step of a queue.
use jaclibc.Base.{
  ℕ, zero, suc, ◌+◌, ◌%◌, ◌<◌, ◌≡◌, ◌≢◌, ◌⊎◌, inl, inr, List, [], ◌∷◌, ◌++◌, length, length-append,
  ==_iff, arith, refl, sym, ap, subst, ◌∙◌, ℕ_discrete,
}
use jaclibc.Alloc.{put}
use jaclibc.Alloc.Lists.{In}
use jaclibc.Alloc.Split.{put_at, put_off}
use jaclibc.Lock.{
  System, Pc, Step, Reach, begin, later, join, spin, enter, leave, holding, waiting, outside, wrap,
  start, release, take_ticket,
}
use jaclibc.Lock.Counting.{busy, weight, busy_le, busy-put}
use jaclibc.Lock.Line.{
  Tail, Front, IsLine, dec_in, In-append, In-append_left, In-last, AllDistinct-append, Tail-frame,
  Tail-append, Tail-at,
}

-- A queue: a thread joins it at the end, and the first one leaves it.
pub data Move : List ℕ → List ℕ → Type 0 where
  stays : {q : List ℕ} → Move q q
  joins : {q : List ℕ} (i : ℕ) → Move q (q ++ i ∷ [])
  leaves : {q : List ℕ} (i : ℕ) → Move (i ∷ q) q

pub outside_waiting : (t : ℕ) → outside ≢ waiting t
outside_waiting t e = ground (arith, e)

pub outside_holding : outside ≢ holding
outside_holding e = ground (arith, e)

pub holding_waiting : (t : ℕ) → holding ≢ waiting t
holding_waiting t e = ground (arith, e)

waiting_inj : (t u : ℕ) → waiting t ≡ waiting u → t ≡ u
waiting_inj t u e = ground (arith, e)

Front-In : (pc : ℕ → Pc) (t i : ℕ) (q : List ℕ) → Front pc t q → In i q → pc i ≢ outside
Front-In pc t i [] h m e = absurd m
Front-In pc t i (x ∷ q) h (inl same) e = elim h.0 [
  | inl w ↦ outside_waiting (t % wrap) (sym e ∙ ap pc same ∙ w)
  | inr l ↦ outside_holding (sym e ∙ ap pc same ∙ l)
]
Front-In pc t i (x ∷ q) h (inr m) e =
    let (k, lt, at) = Tail-at pc (t + 1) i q h.1 m in
    outside_waiting ((t + 1 + k) % wrap) (sym e ∙ at)

-- A thread of the line that holds the lock, or whose turn it is, is the first.
pub Front-first :
    (pc : ℕ → Pc) (t i : ℕ) (q : List ℕ)
    → Front pc t q
    → In i q
    → length q < wrap
    → (pc i ≡ holding) ⊎ (pc i ≡ waiting (t % wrap))
    → (r : List ℕ) × (q ≡ i ∷ r)
Front-first pc t i [] h m short first = absurd m
Front-first pc t i (x ∷ q) h (inl same) short first = (q, ap (λ (k : ℕ). k ∷ q) (sym same))
Front-first pc t i (x ∷ q) h (inr m) short first =
    let (k, lt, at) = Tail-at pc (t + 1) i q h.1 m in
    elim first [
      | inl l ↦ absurd (holding_waiting ((t + 1 + k) % wrap) (sym l ∙ at))
      | inr w ↦
          let same = waiting_inj (t % wrap) ((t + 1 + k) % wrap) (sym w ∙ at) in
          absurd (omega arith)
    ]

-- Behind the first of the line nobody moves.
Front-rest :
    (pc : ℕ → Pc) (t x : ℕ) (q : List ℕ) (p : Pc)
    → Front pc t (x ∷ q)
    → ¬ In x q
    → Tail (put pc x p) (t + 1) q
Front-rest pc t x q p h out =
    Tail-frame pc (put pc x p) (t + 1) q
      (λ j m. put_off pc x p j (λ e. out (subst (λ (k : ℕ). In k q) e m))) h.1

module _ (n : ℕ) (s : System) (q : List ℕ) (few : n < wrap) (l : IsLine n s q) where
  short : length q < wrap
  short = omega (arith, busy_le s.pc n, l.count)

  -- A thread that is not outside is in the line.
  has_place : (i : ℕ) → s.pc i ≢ outside → In i q
  has_place i ne = elim (dec_in i q) [ yes m ↦ m | no out ↦ absurd (ne (l.out i out)) ]

  join-IsLine :
      (i : ℕ)
      → i < n
      → s.pc i ≡ outside
      → IsLine n
          (record {
            lock = (take_ticket s.lock).1;
            pc = put s.pc i (waiting (take_ticket s.lock).0);
          })
          (q ++ i ∷ [])
  join-IsLine i lt e =
      let pc' = put s.pc i (waiting s.lock.next) in
      let absent : ¬ In i q = λ m. Front-In s.pc l.base i q l.line m e in
      let measured = length-append q (i ∷ []) in
      let framed : (j : ℕ) → In j q → pc' j ≡ s.pc j = λ j m.
        put_off s.pc i (waiting s.lock.next) j
          (λ same. absent (subst (λ (k : ℕ). In k q) same m)) in
      let own : pc' i ≡ waiting ((l.base + length q) % wrap) =
        put_at s.pc i (waiting s.lock.next) ∙ ap waiting l.next_at in
      record {
        base = l.base;
        owner_at = l.owner_at;
        next_at = omega (arith, measured, l.next_at);
        line = front q l.line framed own;
        distinct = AllDistinct-append i q l.distinct absent;
        inside = λ j m. elim (In-append j i q m) [
          | inl r ↦ l.inside j r
          | inr same ↦ subst (λ (k : ℕ). k < n) (sym same) lt
        ];
        out = λ j out.
            put_off s.pc i (waiting s.lock.next) j
              (λ same. out (subst (λ (k : ℕ). In k (q ++ i ∷ [])) (sym same) (In-last i q)))
            ∙ l.out j (λ m. out (In-append_left j i q m));
        count =
            omega
              (arith, busy-put s.pc n i (waiting s.lock.next) lt, ap weight e, measured, l.count);
      }
    where
      front :
          {pc' : ℕ → Pc} (r : List ℕ)
          → Front s.pc l.base r
          → ((j : ℕ) → In j r → pc' j ≡ s.pc j)
          → pc' i ≡ waiting ((l.base + length r) % wrap)
          → Front pc' l.base (r ++ i ∷ [])
      front [] h framed own = (inl (own ∙ ap (λ (k : ℕ). waiting (k % wrap)) (omega arith)), tt)
      front {pc'} (x ∷ r) h framed own = (
        elim h.0 [
          | inl w ↦ inl (framed x (inl refl) ∙ w)
          | inr at ↦ inr (framed x (inl refl) ∙ at)
        ],
        Tail-append pc' (l.base + 1) i r
            (Tail-frame s.pc pc' (l.base + 1) r (λ j m. framed j (inr m)) h.1)
            (own ∙ ap (λ (k : ℕ). waiting (k % wrap)) (omega arith)),
      )

  -- The thread whose turn it is, or that holds the lock, is the first of the line.
  pub first_in_line :
      (i : ℕ) → (s.pc i ≡ holding) ⊎ (s.pc i ≡ waiting (l.base % wrap)) → (r : List ℕ) × (q ≡ i ∷ r)
  first_in_line i at =
      Front-first s.pc l.base i q l.line
        (has_place i (λ e. elim at [
          | inl h ↦ outside_holding (sym e ∙ h)
          | inr w ↦ outside_waiting (l.base % wrap) (sym e ∙ w)
        ]))
        short at

-- The first of the line comes to hold the lock.
enter-IsLine :
    (n : ℕ) (s : System) (i : ℕ) (r : List ℕ)
    → IsLine n s (i ∷ r)
    → weight (s.pc i) ≡ 1
    → IsLine n (record s { pc = put s.pc i holding }) (i ∷ r)
enter-IsLine n s i r l busy_before = record {
  base = l.base;
  owner_at = l.owner_at;
  next_at = l.next_at;
  line = (inr (put_at s.pc i holding), Front-rest s.pc l.base i r holding l.line l.distinct.0);
  distinct = l.distinct;
  inside = l.inside;
  out = λ j out. put_off s.pc i holding j (λ same. out (inl same)) ∙ l.out j out;
  count = omega (arith, busy-put s.pc n i holding (l.inside i (inl refl)), busy_before, l.count);
}

-- The first of the line leaves it.
leave-IsLine :
    (n : ℕ) (s : System) (i : ℕ) (r : List ℕ)
    → IsLine n s (i ∷ r)
    → s.pc i ≡ holding
    → IsLine n (record { lock = release s.lock; pc = put s.pc i outside }) r
leave-IsLine n s i r l held =
    let pc' = put s.pc i outside in
    record {
      base = l.base + 1;
      owner_at = omega (arith, l.owner_at);
      next_at = l.next_at ∙ ap (λ (k : ℕ). k % wrap) (omega arith);
      line = front pc' r (Front-rest s.pc l.base i r outside l.line l.distinct.0);
      distinct = l.distinct.1;
      inside = λ j m. l.inside j (inr m);
      out = λ j out. elim (ℕ_discrete j i) [
        | yes same ↦ ap pc' same ∙ put_at s.pc i outside
        | no ne ↦
            put_off s.pc i outside j ne
            ∙ l.out j (λ m. elim m [ inl same ↦ ne same | inr x ↦ out x ])
      ];
      count =
          omega (arith, busy-put s.pc n i outside (l.inside i (inl refl)), ap weight held, l.count);
    }
  where
    front : (pc' : ℕ → Pc) (r' : List ℕ) → Tail pc' (l.base + 1) r' → Front pc' (l.base + 1) r'
    front pc' [] h = tt
    front pc' (x ∷ r') h = (inl h.0, h.1)

-- With fewer than 2 ^ 32 threads, each step leaves them in a line, that of before, that with one thread
-- more at its end, or that without its first thread.
pub Step-IsLine :
    (n : ℕ) (s s' : System) (q : List ℕ)
    → n < wrap
    → IsLine n s q
    → Step n s s'
    → (q' : List ℕ) × Move q q' × IsLine n s' q'
Step-IsLine n s _ q few l (join i lt e) = (q ++ i ∷ [], joins i, join-IsLine n s q few l i lt e)
Step-IsLine n s _ q few l (spin i t e turn) = (q, stays, l)
Step-IsLine n s _ q few l (enter i t e turn) =
    let at : t ≡ l.base % wrap = sym ((==_iff s.lock.owner t).0 turn) ∙ l.owner_at in
    let (r, same) = first_in_line n s q few l i (inr (e ∙ ap waiting at)) in
    (
      q,
      stays,
      subst (λ (p : List ℕ). IsLine n (record s { pc = put s.pc i holding }) p) (sym same)
          (enter-IsLine n s i r (subst (λ (p : List ℕ). IsLine n s p) same l) (ap weight e)),
    )
Step-IsLine n s _ q few l (leave i e) =
    let (r, same) = first_in_line n s q few l i (inl e) in
    (
      r,
      subst (λ (p : List ℕ). Move p r) (sym same) (leaves i),
      leave-IsLine n s i r (subst (λ (p : List ℕ). IsLine n s p) same l) e,
    )

pub Reach-IsLine : (n : ℕ) (s : System) → n < wrap → Reach n s → (q : List ℕ) × IsLine n s q
Reach-IsLine n _ few begin = (
  [],
  record {
    base = 0;
    owner_at = refl;
    next_at = refl;
    line = tt;
    distinct = tt;
    inside = λ i m. absurd m;
    out = λ i out. refl;
    count = none_busy n;
  },
)
  where
    none_busy : (k : ℕ) → busy start.pc k ≡ 0
    none_busy zero = refl
    none_busy (suc k) = omega (arith, none_busy k)
Reach-IsLine n _ few (later {s} {s'} h step) =
    let (q, l) = Reach-IsLine n s few h in
    let (q', move, l') = Step-IsLine n s s' q few l step in (q', l')
