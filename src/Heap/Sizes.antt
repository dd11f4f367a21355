-- ===== src/Heap/Sizes.antt =====
-- How much memory malloc looks for.
use jaclibc.Base.{
  ℕ, ◌+◌, ◌-◌, ◌%◌, ◌^◌, ◌≤◌, ◌<◌, ◌≡◌, ◌⊎◌, Bool, zero, suc, inl, inr, none, arith, refl, dec_lt,
}
use jaclibc.Heap.{Heap, alloc_need, malloc, round_size}

round_size_small :
    (sz : ℕ)
    → sz + 31 < 2 ^ 32
    → 25 ≤ sz
    → (sz ≤ round_size sz)
      × (round_size sz ≤ sz + 31)
      × (round_size sz % 8 ≡ 0)
      × (32 ≤ round_size sz)
unfolding round_size
round_size_small sz lt lo = ground arith

-- The mask leaves less than 2 ^ 32, and from 2 ^ 32 - 31 on that is less than the size.
round_size_bound : (sz : ℕ) → 2 ^ 32 ≤ sz + 31 → round_size sz + 24 < sz
unfolding round_size
round_size_bound sz le = elim (dec_lt sz (2 ^ 32 + 24)) [
  | yes near ↦ ground arith
  | no far ↦ ground arith
]

need_cases :
    (n : ℕ)
    → ((n + 55 < 2 ^ 32)
        × (n + 24 ≤ alloc_need n)
        × (alloc_need n ≤ n + 56)
        × (alloc_need n % 8 ≡ 0)
        × (32 ≤ alloc_need n))
      ⊎ ((2 ^ 32 ≤ n + 55) × (n ≤ 2 ^ 64 - 25) × (alloc_need n < n))
      ⊎ ((2 ^ 64 - 25 < n) × (alloc_need n ≡ 0))
unfolding alloc_need
need_cases zero = inl (omega arith, omega arith, omega arith, refl, omega arith)
need_cases (suc k) = elim (dec_lt (suc k + 55) (2 ^ 32)) [
  | yes small ↦
      let (a, b, c, d) = round_size_small (suc k + 24) (omega arith) (omega arith) in
      inl (small, ground (arith, a), ground (arith, b), ground (arith, c), ground (arith, d))
  | no large ↦ elim (dec_lt (2 ^ 64 - 25) (suc k)) [
    | yes wraps ↦ inr (inr (wraps, ground arith))
    | no fits ↦ inr (inl (omega arith, omega arith, ground (arith, round_size_bound (suc k + 24))))
  ]
]

malloc-none : (mapped : Bool) (h : Heap) (n : ℕ) → alloc_need n ≡ 0 → malloc mapped h n ≡ (none, h)
unfolding malloc
malloc-none mapped h n e = ground (arith, e)

-- For fewer than 2 ^ 32 - 55 bytes malloc looks for a block with room for the header and the bytes, of
-- 32 bytes at least, a multiple of 8, and no more than 56 bytes larger than asked for. From there on to
-- where the sum would wrap the need is smaller than what is asked for, since the mask that rounds the
-- size leaves 32 bits; above that it is 0. Where the need is 0, malloc returns NULL and changes nothing.
pub alloc_need_lem :
    (n : ℕ)
    → (((n + 55 < 2 ^ 32)
          × (n + 24 ≤ alloc_need n)
          × (alloc_need n ≤ n + 56)
          × (alloc_need n % 8 ≡ 0)
          × (32 ≤ alloc_need n))
        ⊎ ((2 ^ 32 ≤ n + 55) × (n ≤ 2 ^ 64 - 25) × (alloc_need n < n))
        ⊎ ((2 ^ 64 - 25 < n) × (alloc_need n ≡ 0)))
      × ((mapped : Bool) (h : Heap) → alloc_need n ≡ 0 → malloc mapped h n ≡ (none, h))
alloc_need_lem n = (need_cases n, λ mapped h e. malloc-none mapped h n e)
