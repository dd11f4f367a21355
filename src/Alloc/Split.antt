-- ===== src/Alloc/Split.antt =====
-- A free block that is put into its bin, and a block that is split and handed out.
use jaclibc.Base.{
  ℕ, ◌≤◌, ◌<◌, ◌≡◌, ◌≢◌, inl, inr, true, ◌==◌, ==_iff, List, ◌∷◌, arith, refl, sym, ap, subst, ◌∙◌,
  if_cases,
}
use jaclibc.Alloc.{Header, Segment, put, membin_get, membin_push, unsafe}
use jaclibc.Alloc.Tiles.{Tiles, Tiles-le, Tiles-frame}
use jaclibc.Alloc.Lists.{In, Chain, Chain-frame, put_both, IsFree, IsSegment, IsOut}

pub put_off {ℓ} : {A : Type ℓ} (f : ℕ → A) (k : ℕ) (v : A) (q : ℕ) → q ≢ k → put f k v q ≡ f q
put_off f k v q ne =
    if_cases (λ a. a ≡ f q) (q == k) _ _ (λ e. absurd (ne ((==_iff q k).0 e))) (λ e. refl)

pub put_at {ℓ} : {A : Type ℓ} (f : ℕ → A) (k : ℕ) (v : A) → put f k v k ≡ v
put_at f k v = if_cases (λ a. a ≡ v) (k == k) _ _ (λ e. refl) (λ e. absurd (ground (arith, e)))

-- A free block that is in no list goes to its bin, and no other block goes there.
pub push-IsSegment :
    (start : ℕ) (s : Segment) (lists : ℕ → List ℕ) (off : ℕ)
    → IsSegment start s lists
    → Tiles s.headers start off
    → off < s.limit
    → (s.headers off).flags ≡ 0
    → IsOut lists off
    → (lists' : ℕ → List ℕ) × IsSegment start (membin_push s off) lists'
      × ((x : ℕ) → x ≢ off → IsOut lists x → IsOut lists' x)
unfolding membin_push
push-IsSegment start s lists off h at low clean out =
    if_cases
      (λ (t : Segment).
        (lists' : ℕ → List ℕ) × IsSegment start t lists'
        × ((x : ℕ) → x ≢ off → IsOut lists x → IsOut lists' x))
      (unsafe s off) _ _ (λ u. (lists, h, λ x ne o. o))
      (λ safe. (
        put lists i (off ∷ lists i),
        record {
          start_in = h.start_in;
          tiled = h.tiled;
          chained =
              put_both (λ j k l. Chain links' k l) s.bins lists i off (off ∷ lists i)
                (
                  refl,
                  omega (arith, Tiles-le at, h.start_in),
                  out i,
                  subst (λ (k : ℕ). Chain links' k (lists i)) (sym (put_at s.links off (s.bins i)))
                      (framed i),
                )
                (λ j ne. framed j);
          free =
              put_both (λ (j : ℕ) (k : ℕ) (l : List ℕ). (x : ℕ) → In x l → IsFree start pushed j x)
                s.bins lists i off (off ∷ lists i)
                (λ x m. elim m [
                  | inl e ↦ subst (λ (k : ℕ). IsFree start pushed i k) (sym e) own
                  | inr r ↦ again i x r
                ])
                (λ j ne x m. again j x m);
        },
        λ x ne o.
            put_both (λ (j : ℕ) (k : ℕ) (l : List ℕ). ¬ In x l) s.bins lists i off (off ∷ lists i)
              (λ m. elim m [ inl e ↦ ne e | inr r ↦ o i r ]) (λ j ne' m. o j m),
      ))
  where
    i : ℕ
    i = membin_get (s.headers off).size

    links' : ℕ → ℕ
    links' = put s.links off (s.bins i)

    pushed : Segment
    pushed = record s { links = links'; bins = put s.bins i off; bitmap = put s.bitmap i true }

    framed : (j : ℕ) → Chain links' (s.bins j) (lists j)
    framed j =
        Chain-frame s.links links' (s.bins j) (lists j)
          (λ x m.
            put_off s.links off (s.bins i) x (λ e. out j (subst (λ (k : ℕ). In k (lists j)) e m)))
          (h.chained j)

    again : (j x : ℕ) → In x (lists j) → IsFree start pushed j x
    again j x m =
        let f = h.free j x m in
        record { class = f.class; starts = f.starts; inside = f.inside; unused = f.unused }

    own : IsFree start pushed i off
    own = record { class = refl; starts = at; inside = low; unused = clean }

-- Headers may change where no size does, and no flag of a block in a list.
pub reheader-IsSegment :
    (start : ℕ) (s : Segment) (lists : ℕ → List ℕ) (headers' : ℕ → Header) (off : ℕ)
    → IsSegment start s lists
    → IsOut lists off
    → ((q : ℕ) → (headers' q).size ≡ (s.headers q).size)
    → ((q : ℕ) → q ≢ off → (headers' q).flags ≡ (s.headers q).flags)
    → IsSegment start (record s { headers = headers' }) lists
reheader-IsSegment start s lists headers' off h out sizes flags = record {
  start_in = h.start_in;
  tiled = Tiles-frame (λ q lo hi. sizes q) h.tiled;
  chained = h.chained;
  free = λ j x m.
      let f = h.free j x m in
      record {
        class = ap membin_get (sizes x) ∙ f.class;
        starts = Tiles-frame (λ q lo hi. sizes q) f.starts;
        inside = f.inside;
        unused = flags x (λ e. out j (subst (λ (k : ℕ). In k (lists j)) e m)) ∙ f.unused;
      };
}

-- The block at x is there in both segments with the same size and flags.
pub record IsKept (start : ℕ) (s s' : Segment) (x : ℕ) : Type 0 where
  pub starts : Tiles s'.headers start x
  pub size : (s'.headers x).size ≡ (s.headers x).size
  pub flags : (s'.headers x).flags ≡ (s.headers x).flags

-- What became of a segment when the block at off was worked on.
pub record Leaves (start : ℕ) (s : Segment) (off need : ℕ) (s' : Segment) : Type 0 where
  pub lists : ℕ → List ℕ
  pub valid : IsSegment start s' lists
  pub out : IsOut lists off
  pub limit : s'.limit ≡ s.limit
  pub starts : Tiles s'.headers start off
  pub enough : need ≤ (s'.headers off).size
  pub kept : (x : ℕ) → x ≢ off → Tiles s.headers start x → IsKept start s s' x
