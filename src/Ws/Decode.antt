-- ===== src/Ws/Decode.antt =====
-- The length in the head of a frame, as it stands in a memory, is what ws_decode_len reads.
use jaclibc.Base.{
  ℕ, zero, suc, ◌+◌, ◌-◌, ◌*◌, ◌/◌, ◌%◌, ◌^◌, ◌≤◌, ◌<◌, ◌≡◌, ◌⊎◌, inl, inr, refl, ap, ◌∙◌, arith,
  Bool, if◌then◌else◌, ltb, Bool-cases,
}
use jaclibc.Memory.{Memory, Ptr, store}
use jaclibc.Memory.Regions.{store-at}
use jaclibc.Ws.{long_length, ws_decode_len, write_length, frame_head}

-- The bytes of the length len, with `bit` for the mask, stand at p.
abbrev pub IsLength : Memory → Ptr → ℕ → ℕ → Type 0
IsLength m p bit len =
    ((len < 126) × (m p ≡ bit + len))
    ⊎ ((126 ≤ len)
        × (len < 65536)
        × (m p ≡ bit + 126)
        × (m (p + 1) ≡ len / 256)
        × (m (p + 2) ≡ len % 256))
    ⊎ ((65536 ≤ len)
        × (m p ≡ bit + 127)
        × ((j : ℕ) → j < 8 → m (p + 1 + j) ≡ len / 2 ^ ((8 - 1 - j) * 8) % 256))

-- The number of bytes of the head in front of a key.
abbrev pub head_of : ℕ → ℕ
head_of len = if ltb len 126 then 2 else if ltb len 65536 then 4 else 10

pub head_of-bounds : (len : ℕ) → (2 ≤ head_of len) × (head_of len ≤ 10)
head_of-bounds len = (ground arith, ground arith)

-- The length stays where its bytes are not written.
pub IsLength-frame :
    (m m' : Memory) (p : Ptr) (bit len : ℕ)
    → ((q : ℕ) → p ≤ q → q + 1 < p + head_of len → m' q ≡ m q)
    → IsLength m p bit len
    → IsLength m' p bit len
IsLength-frame m m' p bit len same (inl (small, e)) =
    inl (small, same p (omega arith) (ground arith) ∙ e)
IsLength-frame m m' p bit len same (inr (inl (lo, hi, e, e1, e2))) = inr (
    inl (
      lo,
      hi,
      same p (omega arith) (ground arith) ∙ e,
      same (p + 1) (omega arith) (ground arith) ∙ e1,
      same (p + 2) (omega arith) (ground arith) ∙ e2,
    ))
IsLength-frame m m' p bit len same (inr (inr (lo, e, bytes))) = inr (
    inr (
      lo,
      same p (omega arith) (ground arith) ∙ e,
      λ j lt. same (p + 1 + j) (omega arith) (ground arith) ∙ bytes j lt,
    ))

length_step :
    (left i : ℕ) (m : Memory) (p : Ptr) (acc acc' : ℕ)
    → (acc * 256 + m (p + 1 + i)) % 2 ^ 64 ≡ acc'
    → long_length (suc left) i m p acc ≡ long_length left (i + 1) m p acc'
unfolding long_length
length_step left i m p acc acc' e = ap (long_length left (i + 1) m p) e

long_length_lem :
    (m : Memory) (p : Ptr) (len : ℕ)
    → len < 2 ^ 64
    → ((j : ℕ) → j < 8 → m (p + 1 + j) ≡ len / 2 ^ ((8 - 1 - j) * 8) % 256)
    → long_length 8 0 m p 0 ≡ len
unfolding long_length
long_length_lem m p len lt bytes =
    length_step 7 0 m p 0 (len / 2 ^ 56) (omega (arith, bytes 0 (omega arith)))
    ∙ length_step 6 1 m p (len / 2 ^ 56) (len / 2 ^ 48) (omega (arith, bytes 1 (omega arith)))
    ∙ length_step 5 2 m p (len / 2 ^ 48) (len / 2 ^ 40) (omega (arith, bytes 2 (omega arith)))
    ∙ length_step 4 3 m p (len / 2 ^ 40) (len / 2 ^ 32) (omega (arith, bytes 3 (omega arith)))
    ∙ length_step 3 4 m p (len / 2 ^ 32) (len / 2 ^ 24) (omega (arith, bytes 4 (omega arith)))
    ∙ length_step 2 5 m p (len / 2 ^ 24) (len / 2 ^ 16) (omega (arith, bytes 5 (omega arith)))
    ∙ length_step 1 6 m p (len / 2 ^ 16) (len / 2 ^ 8) (omega (arith, bytes 6 (omega arith)))
    ∙ length_step 0 7 m p (len / 2 ^ 8) len (omega (arith, bytes 7 (omega arith)))

pub decode-IsLength :
    (m : Memory) (p : Ptr) (bit len : ℕ)
    → len < 2 ^ 64
    → bit % 128 ≡ 0
    → IsLength m p bit len
    → ws_decode_len m p ≡ (len, head_of len - 1)
unfolding ws_decode_len
decode-IsLength m p bit len lt clear (inl (small, e)) = ground arith
decode-IsLength m p bit len lt clear (inr (inl (lo, hi, e, e1, e2))) = ground arith
decode-IsLength m p bit len lt clear (inr (inr (lo, e, bytes))) =
    ground (arith, long_length_lem m p len lt bytes)

write_length-outside :
    (count : ℕ) (m : Memory) (p : Ptr) (len q : ℕ)
    → (q < p) ⊎ (p + count ≤ q)
    → write_length count m p len q ≡ m q
unfolding write_length
write_length-outside zero m p len q out = refl
write_length-outside (suc j) m p len q out =
    ground (arith, write_length-outside j (store m p (len / 2 ^ (j * 8) % 256)) (p + 1) len q)

write_length-inside :
    (count : ℕ) (m : Memory) (p : Ptr) (len j : ℕ)
    → j < count
    → write_length count m p len (p + j) ≡ len / 2 ^ ((count - 1 - j) * 8) % 256
unfolding write_length
write_length-inside zero m p len j lt = absurd (omega arith)
write_length-inside (suc k) m p len zero lt =
    ap (write_length k (store m p (len / 2 ^ (k * 8) % 256)) (p + 1) len) (omega arith)
    ∙ write_length-outside k (store m p (len / 2 ^ (k * 8) % 256)) (p + 1) len p (inl (omega arith))
    ∙ store-at m p (len / 2 ^ (k * 8) % 256)
    ∙ ap (λ e. len / 2 ^ (e * 8) % 256) (omega arith)
write_length-inside (suc k) m p len (suc j) lt =
    ap (write_length k (store m p (len / 2 ^ (k * 8) % 256)) (p + 1) len) (omega arith)
    ∙ write_length-inside k (store m p (len / 2 ^ (k * 8) % 256)) (p + 1) len j (omega arith)
    ∙ ap (λ e. len / 2 ^ (e * 8) % 256) (omega arith)

pub frame_head_lem :
    (m : Memory) (buf : Ptr) (opcode len : ℕ) (masked : Bool)
    → opcode < 16
    → let (i, m') = frame_head m buf opcode len masked in
      (i ≡ head_of len)
      × (m' buf ≡ 128 + opcode)
      × IsLength m' (buf + 1) (if masked then 128 else 0) len
      × ((q : ℕ) → (q < buf) ⊎ (buf + head_of len ≤ q) → m' q ≡ m q)
unfolding frame_head
frame_head_lem m buf opcode len masked lt = elim (Bool-cases (ltb len 126)) [
  | inl small ↦ (
    ground (arith, small),
    ground (arith, small),
    inl (ground (arith, small), ground (arith, small)),
    λ q out. ground (arith, small),
  )
  | inr big ↦ elim (Bool-cases (ltb len 65536)) [
    | inl middle ↦ (
      ground (arith, big, middle),
      ground (arith, big, middle),
      inr (
          inl (
            ground (arith, big),
            ground (arith, middle),
            ground (arith, big, middle),
            ground (arith, big, middle),
            ground (arith, big, middle),
          )),
      λ q out. ground (arith, big, middle),
    )
    | inr large ↦
        let bit : ℕ = if masked then 128 else 0 in
        let m1 = store (store m buf (128 + opcode % 16)) (buf + 1) (bit + 127) in
        (
          ground (arith, big, large),
          ground (arith, big, large, write_length-outside 8 m1 (buf + 2) len buf),
          inr (
              inr (
                ground (arith, large),
                ground (arith, big, large, write_length-outside 8 m1 (buf + 2) len (buf + 1)),
                λ j lt. ground (arith, big, large, write_length-inside 8 m1 (buf + 2) len j lt),
              )),
          λ q out. ground (arith, big, large, write_length-outside 8 m1 (buf + 2) len q),
        )
  ]
]
