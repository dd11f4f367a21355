-- ===== src/Messages/Errors.antt =====
-- What strerror_r reports and leaves in the caller's buffer.
use jaclibc.Base.{
  ℕ, ◌+◌, ◌-◌, ◌≤◌, ◌<◌, ◌≡◌, ◌≢◌, ◌⊎◌, inl, inr, List, some, length, take, arith, min, leb,
  if◌then◌else◌, ltb, ℤ, Bool-cases, ◌∙◌,
}
use jaclibc.Memory.{Memory, Ptr, IsString}
use jaclibc.Memory.Regions.{IsApart, SameOutside}
use jaclibc.Str.Bounded.{copy_prefix}
use jaclibc.Str.Length.{strlen_lem}
use jaclibc.Messages.{error_message, strerror, strerror_r, hand_over, erange}
use jaclibc.Messages.Copies.{error_message_short, put_message_lem, copy_whole, take_all}

-- The second half of strerror_r, on the message in its buffer.
pass_message :
    (cs : List ℕ) (f : ℕ) (m : Memory) (buffer buf : Ptr) (buflen : ℕ)
    → buffer ≢ 0
    → buf ≢ 0
    → 0 < buflen
    → IsString m buffer cs
    → length cs < f
    → IsApart buf buflen buffer (length cs + 1)
    → let r = hand_over m buffer (length cs) buf buflen in
      (r.0 ≡ (if ltb (length cs) buflen then 0 else erange))
      × IsString r.1 buf (take (min (buflen - 1) (length cs)) cs)
      × SameOutside m r.1 buf buflen
unfolding hand_over
pass_message cs f m buffer buf buflen hb hd room h lt apart =
    elim (Bool-cases (leb buflen (length cs))) [
      | inl cut ↦
          let le : buflen ≤ length cs = ground arith in
          let (is, same) =
            copy_prefix cs (buflen - 1) buflen m buf buffer hd hb h (omega arith) (omega arith)
              apart in
          let e : min (buflen - 1) (length cs) ≡ buflen - 1 = omega arith in
          rw cut (ground arith, rw e is, same)
      | inr fits ↦
          let less : length cs < buflen = ground arith in
          let (_, is, same) = copy_whole cs buflen m buf buffer hd hb h less apart in
          let e : min (buflen - 1) (length cs) ≡ length cs = omega arith in
          rw fits (ground arith, rw (e, take_all cs) is, same)
    ]

-- strerror_r puts the message of the error, or as much of it as fits, in the caller's buffer, closed
-- by a NUL, and returns ERANGE exactly where the message with its NUL did not fit; nothing is written
-- outside the two buffers. The literal stands in memory, it and the caller's buffer, of one byte at
-- least, are apart from strerror's own, no pointer is NULL, and there are 64 rounds of fuel.
pub strerror_r_lem :
    (literal : List ℕ → Ptr) (f : ℕ) (m : Memory) (buffer : Ptr) (err : ℤ) (buf : Ptr) (buflen : ℕ)
    → 64 ≤ f
    → let text = error_message err in
      buffer ≢ 0
      → buf ≢ 0
      → literal text ≢ 0
      → 0 < buflen
      → IsString m (literal text) text
      → IsApart buffer 64 (literal text) (length text + 1)
      → IsApart buf buflen buffer 64
      → (m' : Memory) × (strerror_r literal f m buffer err buf buflen
          ≡ some (if ltb (length text) buflen then 0 else erange, m'))
        × IsString m' buf (take (min (buflen - 1) (length text)) text)
        × ((q : ℕ) → (q < buf) ⊎ (buf + buflen ≤ q) → (q < buffer) ⊎ (buffer + 64 ≤ q) → m' q ≡ m q)
unfolding strerror_r strerror
strerror_r_lem literal f m buffer err buf buflen fuel hb hd hl room h apart apart' =
    let text = error_message err in
    let short = error_message_short err in
    let (m1, run, is, same) =
      put_message_lem text f m buffer (literal text) hb hl h short (omega arith) apart in
    let len = strlen_lem text f m1 buffer hb is (omega arith) in
    let (code, is', same') =
      pass_message text f m1 buffer buf buflen hb hd room is (omega arith)
        (narrow (length text) short apart') in
    (
      (hand_over m1 buffer (length text) buf buflen).1,
      ground (arith, run, len, code),
      is',
      λ q out out'. same' q out ∙ same q out',
    )
  where
    narrow : (k : ℕ) → k < 64 → IsApart buf buflen buffer 64 → IsApart buf buflen buffer (k + 1)
    narrow k lt (inl p) = inl p
    narrow k lt (inr p) = inr (omega arith)
