-- ===== src/Lock/Counting.antt =====
-- How many threads are in the lock.
use jaclibc.Base.{ℕ, zero, suc, ◌+◌, ◌≤◌, ◌<◌, ◌≡◌, arith, refl, ap, ℕ_discrete}
use jaclibc.Alloc.{put}
use jaclibc.Lock.{Pc, outside, holding, waiting}

abbrev pub weight : Pc → ℕ
weight outside = 0
weight holding = 1
weight (waiting t) = 1

abbrev pub busy : (ℕ → Pc) → ℕ → ℕ
busy pc zero = 0
busy pc (suc n) = weight (pc n) + busy pc n

weight_le : (p : Pc) → weight p ≤ 1
weight_le outside = omega arith
weight_le holding = omega arith
weight_le (waiting t) = omega arith

pub busy_le : (pc : ℕ → Pc) (n : ℕ) → busy pc n ≤ n
busy_le pc zero = omega arith
busy_le pc (suc n) = omega (arith, busy_le pc n, weight_le (pc n))

busy_above : (pc : ℕ → Pc) (n i : ℕ) (p : Pc) → n ≤ i → busy (put pc i p) n ≡ busy pc n
busy_above pc zero i p le = refl
busy_above pc (suc n) i p le = ground (arith, busy_above pc n i p (omega arith))

-- Only the thread that changes counts.
pub busy-put :
    (pc : ℕ → Pc) (n i : ℕ) (p : Pc)
    → i < n
    → busy (put pc i p) n + weight (pc i) ≡ busy pc n + weight p
busy-put pc zero i p lt = absurd (omega arith)
busy-put pc (suc n) i p lt = elim (ℕ_discrete i n) [
  | yes e ↦
      let above = busy_above pc n i p (omega arith) in
      let here : weight (put pc i p n) ≡ weight p = ap weight (ground (arith, e)) in
      let there : weight (pc i) ≡ weight (pc n) = ap (λ (k : ℕ). weight (pc k)) e in
      omega (arith, above, here, there)
  | no ne ↦
      let rest = busy-put pc n i p (omega arith) in
      let here : weight (put pc i p n) ≡ weight (pc n) = ap weight (ground (arith, ne)) in
      omega (arith, rest, here)
]
