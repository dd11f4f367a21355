-- ===== src/Ws/Serve/Exact.antt =====
-- ws_serve_in on the frame that ws_frame_build wrote, when no more bytes have come.
use jaclibc.Base.{ℕ, ◌+◌, ◌-◌, ◌^◌, ◌≤◌, ◌<◌, ◌≡◌, ◌≢◌, inl, inr, arith, false, none, []}
use jaclibc.Memory.{Ptr}
use jaclibc.Memory.Regions.{IsApart}
use jaclibc.Ws.{World, ws_decode_len, ws_frame_build}
use jaclibc.Ws.Decode.{head_of, head_of-bounds}
use jaclibc.Ws.Frames.{ws_frame_build_lem}
use jaclibc.Ws.Serve.{Session, ok, header_size, lacks_bytes, ws_serve_in}

decode_short :
    (w : World) (s : Session) (buf : Ptr) (used len off : ℕ) (local : Ptr)
    → ws_decode_len w.mem (buf + 1) ≡ (len, off)
    → used < 2 + off + len
    → len < 2 ^ 63
    → off ≤ 9
    → ws_serve_in w s buf used local
      ≡ record { answer = ok; world = w; session = s; consumed = none; sent = [] }
unfolding ws_serve_in header_size lacks_bytes
decode_short w s buf used len off local e short lt le = ground (arith, e)

-- A frame that ws_frame_build has written without a mask, of which every byte has come and no other one,
-- is not taken: ws_serve_in waits for more and changes nothing, since it counts the byte of the length twice.
pub serve_in_waits :
    (w : World) (s : Session) (buf : Ptr) (size opcode : ℕ) (payload : Ptr) (len : ℕ) (local : Ptr)
    → buf ≢ 0
    → payload ≢ 0
    → 14 ≤ size
    → size < 2 ^ 63
    → opcode < 16
    → IsApart payload len buf (head_of len + len)
    → head_of len + len ≤ size
    → let (n, w') = ws_frame_build w buf size opcode payload len false in
      (n ≡ head_of len + len)
      × (ws_serve_in w' s buf n local
          ≡ record { answer = ok; world = w'; session = s; consumed = none; sent = [] })
serve_in_waits w s buf size opcode payload len local hb hp room small low apart fits =
    let (lo, hi) = head_of-bounds len in
    elim (ws_frame_build_lem w buf size opcode payload len hb hp room small (omega arith) low
      apart) [
        | inl (short, _) ↦ absurd (omega arith)
        | inr (_, total, _, decoded) ↦ (
          total,
          decode_short (ws_frame_build w buf size opcode payload len false).1 s buf
              (ws_frame_build w buf size opcode payload len false).0 len (head_of len - 1) local
              decoded (omega arith) (omega arith) (omega arith),
        )
      ]
