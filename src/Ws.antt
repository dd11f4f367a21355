-- ===== src/Ws.antt =====
-- include/transit/ws.h: the frames of WebSocket. The buffers stand in one memory, with the seed of rand beside
-- it; local arrays have an address that is an argument. Sizes have 64 bits.
pub mod Serve
pub mod Frames
pub mod Decode
use jaclibc.Base.{
  ℕ, zero, suc, ◌+◌, ◌-◌, ◌*◌, ◌/◌, ◌%◌, ◌^◌, Bool, ◌||◌, ◌==◌, ltb, leb, if◌then◌else◌, bit_xor,
  Option, none, some, List, [], ◌∷◌, length,
}
use jaclibc.Memory.{Memory, Ptr, null, store, bytes_at}
use jaclibc.Mem.{memcpy}
use jaclibc.Random.{rand}

-- for (int i = 0; i < 8; i++) { ... }, with `left` rounds to go.
unfoldable pub long_length : ℕ → ℕ → Memory → Ptr → ℕ → ℕ
long_length zero i m buf len = len
long_length (suc left) i m buf len =
    long_length left (i + 1) m buf ((len * 256 + m (buf + 1 + i)) % 2 ^ 64)

-- The length, and *out_len.
unfoldable pub ws_decode_len : Memory → Ptr → ℕ × ℕ
unfolding long_length
ws_decode_len m buf =
    let len = m buf % 128 in
    if len == 126
    then (m (buf + 1) * 256 + m (buf + 2), 3)
    else if len == 127
    then (long_length 8 0 m buf 0, 9)
    else (len, 1)

-- for (size_t i = 0; i < len; i++) data[i] ^= mask[i % 4]
unfoldable pub mask_loop : ℕ → ℕ → Memory → Ptr → Ptr → Memory
mask_loop zero i m bytes mask = m
mask_loop (suc left) i m bytes mask =
    mask_loop left (i + 1) (store m (bytes + i) (bit_xor (m (bytes + i)) (m (mask + i % 4)))) bytes
      mask

unfoldable pub ws_mask : Memory → Ptr → ℕ → Ptr → Memory
unfolding mask_loop
ws_mask m bytes len mask = mask_loop len 0 m bytes mask

-- The memory, and the seed of rand.
pub record World : Type 0 where
  pub mem : Memory
  pub seed : ℕ

-- for (int j = 7; j >= 0; j--) buf[i++] = (payload_len >> (j * 8)) & 0xFF: `count` is j + 1.
unfoldable pub write_length : ℕ → Memory → Ptr → ℕ → Memory
write_length zero m p len = m
write_length (suc j) m p len = write_length j (store m p (len / 2 ^ (j * 8) % 256)) (p + 1) len

-- The first byte and the length. The bit of the mask is clear in the byte that it is put in.
unfoldable pub frame_head : Memory → Ptr → ℕ → ℕ → Bool → ℕ × Memory
frame_head m buf opcode len masked =
    let m1 = store m buf (128 + opcode % 16) in
    let bit : ℕ = if masked then 128 else 0 in
    if ltb len 126
    then (2, store m1 (buf + 1) (bit + len % 128))
    else if ltb len 65536
    then (
      4,
      store (store (store m1 (buf + 1) (bit + 126)) (buf + 2) (len / 256 % 256)) (buf + 3)
          (len % 256),
    )
    else (10, write_length 8 (store m1 (buf + 1) (bit + 127)) (buf + 2) len)

-- buf[i++] = (rand() >> 16) & 0xFF, `count` times from p on.
unfoldable pub write_key : ℕ → World → Ptr → World
unfolding rand
write_key zero w p = w
write_key (suc count) w p =
    let (r, seed') = rand w.seed in
    write_key count (record { mem = store w.mem p (r / 2 ^ 16 % 256); seed = seed' }) (p + 1)

-- The loop that masks the payload, with `left` bytes to go: the new i.
unfoldable pub copy_masked : ℕ → ℕ → ℕ → ℕ → Memory → Ptr → Ptr → ℕ × Memory
copy_masked zero j i size m buf payload = (i, m)
copy_masked (suc left) j i size m buf payload =
    let rest =
      copy_masked left (j + 1) (i + 1) size
        (store m (buf + i) (bit_xor (m (payload + j)) (m (buf + (i - 4 + j % 4))))) buf payload in
    if ltb i size then rest else (i, m)

-- The behaviour behind the head, which ends at i.
unfoldable pub frame_body : World → ℕ → Ptr → ℕ → Ptr → ℕ → Bool → ℕ × World
frame_body w i buf size payload len masked =
    let w' = write_key 4 w (buf + i) in
    let (i', m') = copy_masked len 0 (i + 4) size w'.mem buf payload in
    if masked
    then (i', record w' { mem = m' })
    else if ltb size ((i + len) % 2 ^ 64)
    then (0, w)
    else ((i + len) % 2 ^ 64, record w { mem = (memcpy w.mem (buf + i) payload len).1 })

unfoldable pub ws_frame_build : World → Ptr → ℕ → ℕ → Ptr → ℕ → Bool → ℕ × World
ws_frame_build w buf size opcode payload len masked =
    let (i, m) = frame_head w.mem buf opcode len masked in
    if buf == null || ltb size 14
    then (0, w)
    else frame_body (record w { mem = m }) i buf size payload len masked
