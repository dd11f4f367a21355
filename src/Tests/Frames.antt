-- ===== src/Tests/Frames.antt =====
-- Runs of the frames of include/transit/ws.h.
use jaclibc.Base.{
  ℕ, ◌+◌, ◌-◌, ◌^◌, ◌≡◌, ◌≤◌, ◌<◌, ◌⊎◌, inr, true, false, some, none, [], ◌∷◌, get_or, refl, arith,
}
use jaclibc.Memory.{Memory, bytes_at}
use jaclibc.Ws.{
  World, frame_head, frame_body, write_key, copy_masked, ws_decode_len, ws_frame_build,
}
use jaclibc.Ws.Decode.{head_of}
use jaclibc.Ws.Frames.{HasFrame, ws_frame_build_lem}
use jaclibc.Ws.Serve.{Session, ok, header_size, lacks_bytes, lacks_room, ws_send_close, ws_serve_in}
use jaclibc.Ws.Serve.Exact.{serve_in_waits}
use jaclibc.Ws.Serve.Bounds.{serve_in_bounds}
use jaclibc.Mem.{copy_up, memcpy}

-- The payload "abcd" at 100, and zero elsewhere.
abbrev payload_memory : Memory
payload_memory q = get_or (b'a' ∷ b'b' ∷ b'c' ∷ b'd' ∷ []) (q - 100) 0

abbrev world : World
world = record { mem = payload_memory; seed = 1 }

abbrev session : Session
session = record { msg_buf = 200; msg_size = 16; msg_used = 0; close_code = 0 }

-- A text frame, and its bytes.
plain_frame :
    let (n, w) = ws_frame_build world 20 64 1 100 4 false in
    (n ≡ 6) × (bytes_at w.mem 20 6 ≡ 129 ∷ 4 ∷ b'a' ∷ b'b' ∷ b'c' ∷ b'd' ∷ [])
unfolding ws_frame_build frame_head frame_body memcpy copy_up
plain_frame = (refl, refl)

-- With a mask the key is zero, since rand has 15 bits, and from the third byte on the payload is
-- combined with what was written of it before: 'c' with 'a' gives 2, and 'd' with that 102.
masked_frame :
    let (n, w) = ws_frame_build world 20 64 1 100 4 true in
    (n ≡ 10) × (bytes_at w.mem 20 10 ≡ 129 ∷ 132 ∷ 0 ∷ 0 ∷ 0 ∷ 0 ∷ b'a' ∷ b'b' ∷ 2 ∷ 102 ∷ [])
unfolding ws_frame_build frame_head frame_body write_key copy_masked
masked_frame = (refl, refl)

-- The frame that closes with 1000 and no reason carries its own head in place of the code 3, 232.
closing_frame : (ws_send_close world 300 1000 []).1 ≡ (136 ∷ 2 ∷ 136 ∷ 2 ∷ []) ∷ []
unfolding ws_send_close ws_frame_build frame_head frame_body memcpy copy_up
closing_frame = refl

-- A length of 2^64 - 11 passes both tests, when 11 bytes are in msg_buf.
long_length :
    (lacks_bytes 11 (header_size 9 false) (2 ^ 64 - 11) ≡ false)
    × (lacks_room (record session { msg_used = 11 }) (2 ^ 64 - 11) ≡ false)
unfolding lacks_bytes header_size lacks_room
long_length = (refl, refl)

-- A frame that goes on with a message (opcode 0) is taken, and its payload dropped.
continued :
    let r =
      ws_serve_in
        (record { mem = λ q. get_or (0 ∷ 1 ∷ b'a' ∷ 0 ∷ []) q 0; seed = 1 })
        session
        0
        4
        300 in
    (r.consumed ≡ some 4) × (r.session.msg_used ≡ 0)
unfolding ws_serve_in header_size lacks_bytes ws_decode_len
continued = (refl, refl)

ws_frame_build_lem_example :
    let (n, w') = ws_frame_build world 20 64 1 100 4 false in
    ((64 < head_of 4 + 4) × (n ≡ 0))
    ⊎ ((head_of 4 + 4 ≤ 64)
        × (n ≡ head_of 4 + 4)
        × (HasFrame payload_memory w'.mem 20 1 100 4)
        × (ws_decode_len w'.mem 21 ≡ (4, head_of 4 - 1)))
ws_frame_build_lem_example =
    ws_frame_build_lem world 20 64 1 100 4 (omega arith) (omega arith) (omega arith) (omega arith)
      (omega arith) (omega arith) (inr (omega arith))

serve_in_waits_example :
    let (n, w') = ws_frame_build world 20 64 1 100 4 false in
    (n ≡ head_of 4 + 4)
    × (ws_serve_in w' session 20 n 300
        ≡ record { answer = ok; world = w'; session = session; consumed = none; sent = [] })
serve_in_waits_example =
    serve_in_waits world session 20 64 1 100 4 300 (omega arith) (omega arith) (omega arith)
      (omega arith) (omega arith) (inr (omega arith)) (omega arith)

-- A text frame of one byte, with one byte more behind it.
abbrev text_world : World
text_world = record { mem = λ q. get_or (129 ∷ 1 ∷ b'a' ∷ b'b' ∷ []) (q - 20) 0; seed = 1 }

text_length : (ws_decode_len text_world.mem 21).0 < 2 ^ 63
unfolding ws_decode_len
text_length = omega arith

serve_in_bounds_example :
    let r = ws_serve_in text_world session 20 4 300 in
    (r.session.msg_used ≤ 16)
    × (r.session.msg_size ≡ 16)
    × (r.session.msg_buf ≡ 200)
    × ((q : ℕ)
        → (q < 200) ⊎ (200 + 16 + 1 ≤ q)
        → (q < 300) ⊎ (300 + 128 ≤ q)
        → r.world.mem q ≡ text_world.mem q)
    × ((k : ℕ) → r.consumed ≡ some k → k ≤ 4)
serve_in_bounds_example =
    serve_in_bounds text_world session 20 4 300 text_length (omega arith) (omega arith)
