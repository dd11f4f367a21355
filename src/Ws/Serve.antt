-- ===== src/Ws/Serve.antt =====
-- include/transit/ws.h: the answers of a server to a frame. What is handed to conn_write is in `sent`, in its order;
-- no answer depends on the result of conn_write.
pub mod Exact
pub mod Bounds
use jaclibc.Base.{
  ℕ, zero, suc, ◌+◌, ◌*◌, ◌/◌, ◌%◌, ◌^◌, Bool, not, ◌||◌, ◌==◌, ltb, leb, if◌then◌else◌, bit_xor,
  Option, none, some, List, [], ◌∷◌, ◌++◌, length, true, false,
}
use jaclibc.Memory.{Memory, Ptr, store, bytes_at}
use jaclibc.Mem.{memcpy}
use jaclibc.Ws.{World, ws_decode_len, ws_frame_build}

-- SERVE_OK, SERVE_DONE, SERVE_CLOSE and SERVE_ERROR
pub data ServeCode : Type 0 where
  ok : ServeCode
  done : ServeCode
  close : ServeCode
  error : ServeCode

-- ws_state_t, less what ws_serve_in does not read.
pub record Session : Type 0 where
  pub msg_buf : Ptr
  pub msg_size : ℕ
  pub msg_used : ℕ
  pub close_code : ℕ

pub record ServeResult : Type 0 where
  pub answer : ServeCode
  pub world : World
  pub session : Session
  pub consumed : Option ℕ
  pub sent : List (List ℕ)

-- The frame that is sent from the buffer at local, if there is one.
abbrev pub frames_of : ℕ → Memory → Ptr → List (List ℕ)
frames_of zero m local = []
frames_of (suc n) m local = bytes_at m local (suc n) ∷ []

-- ws_send_pong with its buffer of 128 bytes at local: the frames sent.
unfoldable pub ws_send_pong : World → Ptr → Ptr → ℕ → List (List ℕ) × World
unfolding ws_frame_build
ws_send_pong w local payload len =
    let (n, w') = ws_frame_build w local 128 10 payload len false in (frames_of n w'.mem local, w')

-- The bytes of a literal, stored from p on.
abbrev pub store_all : Memory → Ptr → List ℕ → Memory
store_all m p [] = m
store_all m p (c ∷ s) = store_all (store m p c) (p + 1) s

-- ws_send_close with its buffer of 128 bytes at local, which is also the payload; `reason` is not NULL.
unfoldable pub ws_send_close : World → Ptr → ℕ → List ℕ → ServeCode × List (List ℕ) × World
unfolding ws_frame_build
ws_send_close w local code reason =
    let m = store (store w.mem local (code / 256 % 256)) (local + 1) (code % 256) in
    let fits = leb (2 + length reason) 128 in
    let m' : Memory = if fits then store_all m (local + 2) reason else m in
    let i : ℕ = if fits then 2 + length reason else 2 in
    let (n, w') = ws_frame_build (record w { mem = m' }) local 128 8 local i false in
    (if n == 0 then error else close, frames_of n w'.mem local, w')

-- "Message too big"
abbrev pub too_big : List ℕ
too_big =
    b'M' ∷ b'e' ∷ b's' ∷ b's' ∷ b'a' ∷ b'g' ∷ b'e' ∷ b' ' ∷ b't' ∷ b'o' ∷ b'o' ∷ b' ' ∷ b'b' ∷ b'i'
    ∷ b'g' ∷ []

-- msg_buf[msg_used + i] = payload[i] ^ mask[i % 4], with `left` bytes to go.
unfoldable pub unmask_loop : ℕ → ℕ → Memory → Ptr → Ptr → Ptr → Memory
unmask_loop zero i m dest payload mask = m
unmask_loop (suc left) i m dest payload mask =
    unmask_loop left (i + 1) (store m (dest + i) (bit_xor (m (payload + i)) (m (mask + i % 4))))
      dest payload mask

-- header_size
unfoldable pub header_size : ℕ → Bool → ℕ
header_size len_offset masked = (2 + len_offset + (if masked then 4 else 0)) % 2 ^ 64

-- The frame is not there as a whole.
unfoldable pub lacks_bytes : ℕ → ℕ → ℕ → Bool
lacks_bytes used head len = ltb used ((head + len) % 2 ^ 64)

unfoldable pub lacks_room : Session → ℕ → Bool
lacks_room s len = ltb s.msg_size ((s.msg_used + len) % 2 ^ 64)

-- What a frame with data leaves: its payload behind what is in msg_buf, and a NUL behind a text that ends.
unfoldable pub take_data : Memory → Session → Bool → Ptr → ℕ → Ptr → Bool → Bool → Memory × Session
unfolding unmask_loop memcpy
take_data m s masked payload len mask fin text =
    let dest = s.msg_buf + s.msg_used in
    let m' : Memory =
      if masked then unmask_loop len 0 m dest payload mask else (memcpy m dest payload len).1 in
    let used = (s.msg_used + len) % 2 ^ 64 in
    let m'' : Memory = if text then store m' (s.msg_buf + used) 0 else m' in
    if fin then (m'', record s { msg_used = 0 }) else (m', record s { msg_used = used })

-- The frame at buf, of which `used` bytes are there. The local buffers are at local.
unfoldable pub ws_serve_in : World → Session → Ptr → ℕ → Ptr → ServeResult
ws_serve_in w s buf used local =
    let wait : ServeResult = record {
      answer = ok;
      world = w;
      session = s;
      consumed = none;
      sent = [];
    } in
    let opcode = w.mem buf % 16 in
    let fin = leb 128 (w.mem buf) in
    let masked = leb 128 (w.mem (buf + 1)) in
    let (len, len_offset) = ws_decode_len w.mem (buf + 1) in
    let head = header_size len_offset masked in
    let eaten : Option ℕ = some ((head + len) % 2 ^ 64) in
    let (pong, w1) = ws_send_pong w local (buf + head) len in
    let (closing, frame, w2) = ws_send_close w local 1009 too_big in
    let (m3, s3) =
      take_data w.mem s masked (buf + head) len (buf + 2 + len_offset) fin (opcode == 1) in
    if ltb used 2
    then wait
    else if lacks_bytes used head len
    then wait
    else if opcode == 9
    then record wait { world = w1; consumed = eaten; sent = pong }
    else if opcode == 10
    then record wait { consumed = eaten }
    else if opcode == 8
    then record wait {
      answer = close;
      session =
          if ltb len 2
          then s
          else record s { close_code = w.mem (buf + head) * 256 + w.mem (buf + head + 1) };
    }
    else if opcode == 1 || opcode == 2
    then (if lacks_room s len
        then record wait { answer = closing; world = w2; sent = frame }
        else record wait {
          answer = done;
          world = record w { mem = m3 };
          session = s3;
          consumed = eaten;
        })
    else record wait { consumed = eaten }
