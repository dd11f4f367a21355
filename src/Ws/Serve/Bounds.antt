-- ===== src/Ws/Serve/Bounds.antt =====
-- ws_serve_in writes to its own buffers only.
use jaclibc.Base.{
  ℕ, zero, suc, ◌+◌, ◌/◌, ◌%◌, ◌^◌, ◌≤◌, ◌<◌, ◌≡◌, ◌⊎◌, inl, inr, refl, ◌∙◌, arith, Bool, false,
  ◌==◌, leb, bit_xor, some, List, [], ◌∷◌, length,
}
use jaclibc.Memory.{Memory, Ptr, store}
use jaclibc.Memory.Regions.{SameOutside}
use jaclibc.Mem.{memcpy}
use jaclibc.Mem.Copy.{copy_up-outside}
use jaclibc.Ws.{World, ws_decode_len, frame_head, frame_body, ws_frame_build}
use jaclibc.Ws.Decode.{head_of-bounds, frame_head_lem}
use jaclibc.Ws.Serve.{
  Session, store_all, unmask_loop, take_data, header_size, lacks_bytes, lacks_room, ws_send_pong,
  ws_send_close, ws_serve_in, too_big,
}

unmask_loop-outside :
    (left i : ℕ) (m : Memory) (dest payload mask q : ℕ)
    → (q < dest + i) ⊎ (dest + i + left ≤ q)
    → unmask_loop left i m dest payload mask q ≡ m q
unfolding unmask_loop
unmask_loop-outside zero i m dest payload mask q out = refl
unmask_loop-outside (suc left) i m dest payload mask q out = ground (
  arith,
  unmask_loop-outside left (i + 1)
      (store m (dest + i) (bit_xor (m (payload + i)) (m (mask + i % 4)))) dest payload mask q,
)

memcpy-outside : (m : Memory) (d s n q : ℕ) → (q < d) ⊎ (d + n ≤ q) → (memcpy m d s n).1 q ≡ m q
unfolding memcpy
memcpy-outside m d s n q out = ground (arith, copy_up-outside n 0 m d s q)

store_all-outside :
    (m : Memory) (p : Ptr) (cs : List ℕ) (q : ℕ)
    → (q < p) ⊎ (p + length cs ≤ q)
    → store_all m p cs q ≡ m q
store_all-outside m p [] q out = refl
store_all-outside m p (c ∷ cs) q out = ground (arith, store_all-outside (store m p c) (p + 1) cs q)

take_data-outside :
    (m : Memory) (s : Session) (masked : Bool) (payload len mask q : ℕ) (fin text : Bool)
    → s.msg_used + len ≤ s.msg_size
    → s.msg_size < 2 ^ 63
    → (q < s.msg_buf) ⊎ (s.msg_buf + s.msg_size + 1 ≤ q)
    → (take_data m s masked payload len mask fin text).0 q ≡ m q
unfolding take_data
take_data-outside m s masked payload len mask q fin text room lt out = ground (
  arith,
  unmask_loop-outside len 0 m (s.msg_buf + s.msg_used) payload mask q,
  memcpy-outside m (s.msg_buf + s.msg_used) payload len q,
)

take_data-session :
    (m : Memory) (s : Session) (masked : Bool) (payload len mask : ℕ) (fin text : Bool)
    → s.msg_used + len ≤ s.msg_size
    → s.msg_size < 2 ^ 63
    → let s' = (take_data m s masked payload len mask fin text).1 in
      (s'.msg_used ≤ s.msg_size) × (s'.msg_size ≡ s.msg_size) × (s'.msg_buf ≡ s.msg_buf)
unfolding take_data
take_data-session m s masked payload len mask fin text room lt =
    (ground arith, ground arith, ground arith)

-- A frame without a mask is built in the bytes of its buffer.
build-outside :
    (w : World) (buf : Ptr) (size opcode : ℕ) (payload : Ptr) (len : ℕ)
    → opcode < 16
    → size < 2 ^ 63
    → len < 2 ^ 63
    → SameOutside w.mem (ws_frame_build w buf size opcode payload len false).1.mem buf size
unfolding ws_frame_build frame_body
build-outside w buf size opcode payload len low small lt q out =
    let (ends, _, _, outside) = frame_head_lem w.mem buf opcode len false low in
    let (lo, hi) = head_of-bounds len in
    let m1 = (frame_head w.mem buf opcode len false).1 in
    ground (
      arith,
      ends,
      outside q,
      lo,
      hi,
      memcpy-outside m1 (buf + (frame_head w.mem buf opcode len false).0) payload len q,
    )

send_pong-outside :
    (w : World) (local payload : Ptr) (len : ℕ)
    → len < 2 ^ 63
    → SameOutside w.mem (ws_send_pong w local payload len).1.mem local 128
unfolding ws_send_pong
send_pong-outside w local payload len lt q out =
    build-outside w local 128 10 payload len (omega arith) (omega arith) lt q out

send_close-outside :
    (w : World) (local : Ptr) (code : ℕ)
    → SameOutside w.mem (ws_send_close w local code too_big).2.mem local 128
unfolding ws_send_close
send_close-outside w local code q out =
    let m = store (store w.mem local (code / 256 % 256)) (local + 1) (code % 256) in
    build-outside (record w { mem = store_all m (local + 2) too_big }) local 128 8 local 17
      (omega arith) (omega arith) (omega arith) q out
    ∙ store_all-outside m (local + 2) too_big q (further out)
    ∙ ground arith
  where
    further : (q < local) ⊎ (local + 128 ≤ q) → (q < local + 2) ⊎ (local + 2 + 15 ≤ q)
    further (inl h) = inl (omega arith)
    further (inr h) = inr (omega arith)

decode-offset : (m : Memory) (p : Ptr) → (ws_decode_len m p).1 ≤ 9
unfolding ws_decode_len
decode-offset m p = ground arith

-- Where the length in the frame is below 2^63 and msg_buf is used within its size, ws_serve_in uses it within its
-- size again and moves neither it nor its end, writes nothing but msg_buf, the byte behind its end
-- and its local buffer, and takes no more bytes than have come.
pub serve_in_bounds :
    (w : World) (s : Session) (buf : Ptr) (used : ℕ) (local : Ptr)
    → (ws_decode_len w.mem (buf + 1)).0 < 2 ^ 63
    → s.msg_used ≤ s.msg_size
    → s.msg_size < 2 ^ 63
    → let r = ws_serve_in w s buf used local in
      (r.session.msg_used ≤ s.msg_size)
      × (r.session.msg_size ≡ s.msg_size)
      × (r.session.msg_buf ≡ s.msg_buf)
      × ((q : ℕ)
          → (q < s.msg_buf) ⊎ (s.msg_buf + s.msg_size + 1 ≤ q)
          → (q < local) ⊎ (local + 128 ≤ q)
          → r.world.mem q ≡ w.mem q)
      × ((k : ℕ) → r.consumed ≡ some k → k ≤ used)
unfolding ws_serve_in lacks_bytes lacks_room
serve_in_bounds w s buf used local lt within small =
    let (len, off) = ws_decode_len w.mem (buf + 1) in
    let masked = leb 128 (w.mem (buf + 1)) in
    let fin = leb 128 (w.mem buf) in
    let text = w.mem buf % 16 == 1 in
    let head = header_size off masked in
    let kept = take_data-session w.mem s masked (buf + head) len (buf + 2 + off) fin text in
    (
      ground (arith, kept),
      ground (arith, kept),
      ground (arith, kept),
      λ q out apart. ground (
        arith,
        take_data-outside w.mem s masked (buf + head) len (buf + 2 + off) q fin text,
        send_pong-outside w local (buf + head) len lt q,
        send_close-outside w local 1009 q,
      ),
      λ k e. ground arith,
    )
