-- ===== src/Http/Feed.antt =====
-- include/transit/http.h: the parser that takes a request as its bytes arrive. The buffer is a memory
-- with its first byte at 0, of `size` bytes. A finished line is read once, so that the NULs that are
-- stored inside of it are not kept; those in place of its end are.
pub mod Pieces
use jaclibc.Base.{
  ℕ, zero, suc, ◌+◌, ◌-◌, Bool, true, false, ◌&&◌, ◌==◌, if◌then◌else◌, ℤ, pos, Option, none, some,
  List, [], ◌∷◌,
}
use jaclibc.Memory.{Memory, store}
use jaclibc.Http.{
  Text, Method, FeedStatus, Request, unknown, more, error, headers, upgraded, same_folded,
  http_parse_header, http_parse_request_line,
}

-- _state
pub data Phase : Type 0 where
  request_line : Phase
  header_lines : Phase

-- The request, _state and _line_start, which is an offset in the buffer.
pub record Parser : Type 0 where
  pub req : Request
  pub phase : Phase
  pub line_start : ℕ

-- What http_feed returns and leaves, less _offset.
pub record Fed : Type 0 where
  pub stat : FeedStatus
  pub parser : Parser
  pub buf : Memory
  pub consumed : ℕ

-- The parser with _offset.
pub record Session : Type 0 where
  pub parser : Parser
  pub offset : ℕ

abbrev pub empty_request : Request
empty_request = record {
  method = unknown;
  path = none;
  query = none;
  authority = none;
  version = 257;
  hdrs = [];
  content_len = 0;
  chunked = false;
  keep_alive = true;
  upgrade = false;
  upgrade_proto = none;
}

unfoldable pub http_init : Session
http_init = record {
  parser = record { req = empty_request; phase = request_line; line_start = 0 };
  offset = 0;
}

unfoldable pub http_reset : Session → Session
http_reset s =
    let req' : Request = record s.parser.req {
      method = unknown;
      path = none;
      query = none;
      authority = none;
      hdrs = [];
      content_len = 0;
      chunked = false;
      upgrade = false;
      upgrade_proto = none;
    } in
    record { parser = record s.parser { req = req'; phase = request_line }; offset = 0 }

-- The string at p, as far as n bytes.
unfoldable pub text_at : Memory → ℕ → ℕ → Text
text_at buf p zero = []
text_at buf p (suc n) = let rest = text_at buf (p + 1) n in if buf p == 0 then [] else buf p ∷ rest

-- buf[i] = '\0'; buf[i+1] = '\0'
abbrev pub end_line : Memory → ℕ → Memory
end_line buf i = store (store buf i 0) (i + 1) 0

-- What is done at the end of a line at i: a parser to go on with, or the status to return.
pub data Next : Type 0 where
  go : Parser → Next
  stop : FeedStatus → Parser → Next

module _ (strtoul : Text → ℕ) (size : ℕ) where
  unfoldable pub end_of : Parser → Text → ℕ → Next
  unfolding http_parse_header http_parse_request_line
  end_of p line i = elim p.phase [
    | request_line ↦
        let (st, req') = http_parse_request_line p.req line in
        elim st [
          | more ↦ go (record { req = req'; phase = header_lines; line_start = i + 2 })
          | error ↦ stop error (record p { req = req' })
          | headers ↦ stop headers (record p { req = req' })
          | upgraded ↦ stop upgraded (record p { req = req' })
        ]
    | header_lines ↦
        if p.line_start == i
        then stop (if p.req.upgrade then upgraded else headers) p
        else (let (result, req') = http_parse_header strtoul p.req line in
            go (record p { req = req'; line_start = i + 2 }))
  ]

  unfoldable pub line_done : Parser → Memory → ℕ → Next
  unfolding end_of text_at
  line_done p buf i = end_of p (text_at (end_line buf i) p.line_start (size - p.line_start)) i

  -- while (i < len) { ... }, with `left` bytes from i to len.
  unfoldable pub feed_loop : ℕ → ℕ → Parser → Memory → Fed
  unfolding line_done
  feed_loop zero i p buf = record { stat = more; parser = p; buf = buf; consumed = i }
  feed_loop (suc zero) i p buf = record { stat = more; parser = p; buf = buf; consumed = i }
  feed_loop (suc (suc left)) i p buf = elim (buf i == 13 && buf (i + 1) == 10) [
    | false ↦ feed_loop (suc left) (i + 1) p buf
    | true ↦ elim (line_done p buf i) [
      | go p' ↦ feed_loop left (i + 2) p' (end_line buf i)
      | stop st p' ↦ record { stat = st; parser = p'; buf = end_line buf i; consumed = i + 2 }
    ]
  ]

  -- The result, and the new _offset.
  unfoldable pub http_feed : ℕ → Session → Memory → Fed × ℕ
  unfolding feed_loop
  http_feed len s buf =
      let r = feed_loop (len - s.offset) s.offset s.parser buf in
      (r, elim r.stat [ more ↦ r.consumed | other ↦ s.offset ])
