-- ===== src/Mem/Copy.antt =====
-- memset, memcpy and memmove write what they should and nothing else.
use jaclibc.Base.{ℕ, zero, suc, ◌+◌, ◌%◌, ◌≤◌, ◌<◌, ◌≡◌, ◌≢◌, ◌⊎◌, arith, refl}
use jaclibc.Memory.{Memory, store}
use jaclibc.Memory.Regions.{SameOutside}
use jaclibc.Mem.{fill_loop, memset, copy_up, copy_down, memmove, memcpy}

fill_loop-outside :
    (left i : ℕ) (m : Memory) (p c q : ℕ)
    → (q < p + i) ⊎ (p + i + left ≤ q)
    → fill_loop left i m p c q ≡ m q
unfolding fill_loop
fill_loop-outside zero i m p c q h = refl
fill_loop-outside (suc left) i m p c q h =
    ground (arith, fill_loop-outside left (i + 1) (store m (p + i) (c % 256)) p c q)

fill_loop-inside :
    (left i : ℕ) (m : Memory) (p c q : ℕ)
    → p + i ≤ q
    → q < p + i + left
    → fill_loop left i m p c q ≡ c % 256
unfolding fill_loop
fill_loop-inside zero i m p c q lo hi = absurd (omega arith)
fill_loop-inside (suc left) i m p c q lo hi = ground (
  arith,
  fill_loop-inside left (i + 1) (store m (p + i) (c % 256)) p c q,
  fill_loop-outside left (i + 1) (store m (p + i) (c % 256)) p c q,
)

-- Copying upwards, when the destination starts below the source or is apart from it.
pub copy_up-outside :
    (left i : ℕ) (m : Memory) (d s q : ℕ)
    → (q < d + i) ⊎ (d + i + left ≤ q)
    → copy_up left i m d s q ≡ m q
unfolding copy_up
copy_up-outside zero i m d s q h = refl
copy_up-outside (suc left) i m d s q h =
    ground (arith, copy_up-outside left (i + 1) (store m (d + i) (m (s + i))) d s q)

copy_up-inside :
    (left i : ℕ) (m : Memory) (d s j : ℕ)
    → (d ≤ s) ⊎ (s + i + left ≤ d + i)
    → i ≤ j
    → j < i + left
    → copy_up left i m d s (d + j) ≡ m (s + j)
unfolding copy_up
copy_up-inside zero i m d s j h lo hi = absurd (omega arith)
copy_up-inside (suc left) i m d s j h lo hi = ground (
  arith,
  copy_up-inside left (i + 1) (store m (d + i) (m (s + i))) d s j,
  copy_up-outside left (i + 1) (store m (d + i) (m (s + i))) d s (d + j),
)

copy_down-outside :
    (n : ℕ) (m : Memory) (d s q : ℕ) → (q < d) ⊎ (d + n ≤ q) → copy_down n m d s q ≡ m q
unfolding copy_down
copy_down-outside zero m d s q h = refl
copy_down-outside (suc n) m d s q h =
    ground (arith, copy_down-outside n (store m (d + n) (m (s + n))) d s q)

copy_down-inside :
    (n : ℕ) (m : Memory) (d s j : ℕ) → s ≤ d → j < n → copy_down n m d s (d + j) ≡ m (s + j)
unfolding copy_down
copy_down-inside zero m d s j h lt = absurd (omega arith)
copy_down-inside (suc n) m d s j h lt = ground (
  arith,
  copy_down-inside n (store m (d + n) (m (s + n))) d s j,
  copy_down-outside n (store m (d + n) (m (s + n))) d s (d + j),
)

-- memset returns its argument, fills exactly the n bytes from s on with the low byte of c, and
-- leaves every other byte as it was, for a pointer other than NULL.
pub memset_lem :
    (m : Memory) (s c n : ℕ)
    → s ≢ 0
    → ((memset m s c n).0 ≡ s)
      × ((q : ℕ) → s ≤ q → q < s + n → (memset m s c n).1 q ≡ c % 256)
      × SameOutside m (memset m s c n).1 s n
unfolding memset
memset_lem m s c n h = (
  ground arith,
  λ q lo hi. ground (arith, fill_loop-inside n 0 m s c q),
  λ q out. ground (arith, fill_loop-outside n 0 m s c q),
)

-- memmove returns its destination and leaves there the n bytes that stood at the source before the
-- call, also where the two regions overlap; no other byte changes. Neither pointer is NULL.
pub memmove_lem :
    (m : Memory) (d s n : ℕ)
    → d ≢ 0
    → s ≢ 0
    → ((memmove m d s n).0 ≡ d)
      × ((j : ℕ) → j < n → (memmove m d s n).1 (d + j) ≡ m (s + j))
      × SameOutside m (memmove m d s n).1 d n
unfolding memmove
memmove_lem m d s n hd hs = (
  ground arith,
  λ j lt. ground (arith, copy_up-inside n 0 m d s j, copy_down-inside n m d s j),
  λ q out. ground (arith, copy_up-outside n 0 m d s q, copy_down-outside n m d s q),
)

-- memcpy does what memmove does where its destination does not begin inside the source region.
pub memcpy_lem :
    (m : Memory) (d s n : ℕ)
    → d ≢ 0
    → s ≢ 0
    → (d ≤ s) ⊎ (s + n ≤ d)
    → ((memcpy m d s n).0 ≡ d)
      × ((j : ℕ) → j < n → (memcpy m d s n).1 (d + j) ≡ m (s + j))
      × SameOutside m (memcpy m d s n).1 d n
unfolding memcpy
memcpy_lem m d s n hd hs apart = (
  ground arith,
  λ j lt. ground (arith, copy_up-inside n 0 m d s j),
  λ q out. ground (arith, copy_up-outside n 0 m d s q),
)
