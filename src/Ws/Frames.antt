-- ===== src/Ws/Frames.antt =====
-- What ws_frame_build leaves in its buffer, and what ws_serve_in does with it.
use jaclibc.Base.{
  ℕ, ◌+◌, ◌-◌, ◌^◌, ◌≤◌, ◌<◌, ◌≡◌, ◌≢◌, ◌⊎◌, inl, inr, refl, sym, ap, subst, ◌∙◌, arith, false,
  dec_lt,
}
use jaclibc.Memory.{Memory, Ptr}
use jaclibc.Memory.Regions.{SameOutside, IsApart}
use jaclibc.Mem.{memcpy}
use jaclibc.Mem.Copy.{memcpy_lem}
use jaclibc.Ws.{World, ws_decode_len, frame_head, frame_body, ws_frame_build}
use jaclibc.Ws.Decode.{
  IsLength, head_of, head_of-bounds, IsLength-frame, decode-IsLength, frame_head_lem,
}

-- The head and the payload behind it, and what is returned where they do not fit.
build_fits :
    (w : World) (buf : Ptr) (size opcode : ℕ) (payload : Ptr) (len h : ℕ)
    → buf ≢ 0
    → 14 ≤ size
    → size < 2 ^ 63
    → (frame_head w.mem buf opcode len false).0 ≡ h
    → h + len ≤ size
    → ws_frame_build w buf size opcode payload len false ≡ (
      h + len,
      record w { mem = (memcpy (frame_head w.mem buf opcode len false).1 (buf + h) payload len).1 },
    )
unfolding ws_frame_build frame_body
build_fits w buf size opcode payload len h hb room small ends fits = ground (arith, ends)

build_short :
    (w : World) (buf : Ptr) (size opcode : ℕ) (payload : Ptr) (len h : ℕ)
    → 14 ≤ size
    → (frame_head w.mem buf opcode len false).0 ≡ h
    → size < h + len
    → h + len < 2 ^ 64
    → (ws_frame_build w buf size opcode payload len false).0 ≡ 0
unfolding ws_frame_build frame_body
build_short w buf size opcode payload len h room ends short lt = ground (arith, ends)

-- The frame stands in m': its head, the payload, and nothing else is written.
abbrev pub HasFrame : Memory → Memory → Ptr → ℕ → Ptr → ℕ → Type 0
HasFrame m m' buf opcode payload len =
    (m' buf ≡ 128 + opcode)
    × IsLength m' (buf + 1) 0 len
    × ((j : ℕ) → j < len → m' (buf + head_of len + j) ≡ m (payload + j))
    × SameOutside m m' buf (head_of len + len)

memcpy-HasFrame :
    (m : Memory) (buf : Ptr) (opcode : ℕ) (payload : Ptr) (len : ℕ)
    → buf ≢ 0
    → payload ≢ 0
    → opcode < 16
    → IsApart payload len buf (head_of len + len)
    → HasFrame m
        (memcpy (frame_head m buf opcode len false).1 (buf + head_of len) payload len).1
        buf
        opcode
        payload
        len
memcpy-HasFrame m buf opcode payload len hb hp low apart =
    let (ends, first, coded, outside) = frame_head_lem m buf opcode len false low in
    let m1 = (frame_head m buf opcode len false).1 in
    let (lo, hi) = head_of-bounds len in
    let (_, inside, rest) =
      memcpy_lem m1 (buf + head_of len) payload len (omega arith) hp (shift_apart apart) in
    (
      rest buf (inl (omega (arith, lo))) ∙ first,
      IsLength-frame m1 (memcpy m1 (buf + head_of len) payload len).1 (buf + 1) 0 len
          (λ q ge le. rest q (inl (omega arith))) coded,
      λ j lt. inside j lt ∙ outside (payload + j) (at_payload apart j lt),
      λ q out. rest q (beyond q out) ∙ outside q (beside q out),
    )
  where
    shift_apart :
        IsApart payload len buf (head_of len + len)
        → (buf + head_of len ≤ payload) ⊎ (payload + len ≤ buf + head_of len)
    shift_apart (inl h) = inr (omega arith)
    shift_apart (inr h) = inl (omega arith)

    at_payload :
        IsApart payload len buf (head_of len + len)
        → (j : ℕ) → j < len
        → (payload + j < buf) ⊎ (buf + head_of len ≤ payload + j)
    at_payload (inl h) j lt = inl (omega arith)
    at_payload (inr h) j lt = inr (omega arith)

    beyond :
        (q : ℕ)
        → (q < buf) ⊎ (buf + (head_of len + len) ≤ q)
        → (q < buf + head_of len) ⊎ (buf + head_of len + len ≤ q)
    beyond q (inl h) = inl (omega arith)
    beyond q (inr h) = inr (omega arith)

    beside :
        (q : ℕ) → (q < buf) ⊎ (buf + (head_of len + len) ≤ q) → (q < buf) ⊎ (buf + head_of len ≤ q)
    beside q (inl h) = inl h
    beside q (inr h) = inr (omega arith)

-- A frame without a mask is written where the buffer has room for it, and else the result is 0. It begins with
-- the opcode and the bit that it is the last one, ws_decode_len reads its length back, the payload stands
-- behind the head, and nothing else is written. The buffer has 14 bytes at least and is apart from the payload,
-- neither pointer is NULL, and the sizes are far from 2^64.
pub ws_frame_build_lem :
    (w : World) (buf : Ptr) (size opcode : ℕ) (payload : Ptr) (len : ℕ)
    → buf ≢ 0
    → payload ≢ 0
    → 14 ≤ size
    → size < 2 ^ 63
    → len < 2 ^ 63
    → opcode < 16
    → IsApart payload len buf (head_of len + len)
    → let (n, w') = ws_frame_build w buf size opcode payload len false in
      ((size < head_of len + len) × (n ≡ 0))
      ⊎ ((head_of len + len ≤ size)
          × (n ≡ head_of len + len)
          × (HasFrame w.mem w'.mem buf opcode payload len)
          × (ws_decode_len w'.mem (buf + 1) ≡ (len, head_of len - 1)))
ws_frame_build_lem w buf size opcode payload len hb hp room small lt low apart =
    elim (dec_lt size (head_of len + len)) [
      | yes short ↦ inl (
        short,
        build_short w buf size opcode payload len (head_of len) room
            (frame_head_lem w.mem buf opcode len false low).0 short
            (omega (arith, head_of-bounds len)),
      )
      | no long ↦
          let fits =
            build_fits w buf size opcode payload len (head_of len) hb room small
              (frame_head_lem w.mem buf opcode len false low).0 (omega arith) in
          let frame = memcpy-HasFrame w.mem buf opcode payload len hb hp low apart in
          let m' =
            (memcpy (frame_head w.mem buf opcode len false).1 (buf + head_of len) payload len).1 in
          inr (
            omega arith,
            ap (λ r. r.0) fits,
            subst (λ r. HasFrame w.mem r.1.mem buf opcode payload len) (sym fits) frame,
            ap (λ r. ws_decode_len r.1.mem (buf + 1)) fits
                ∙ decode-IsLength m' (buf + 1) 0 len (omega arith) refl frame.1,
          )
    ]
