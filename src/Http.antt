-- ===== src/Http.antt =====
-- include/transit/http.h: the request line, the headers and the version of a request. A string is its bytes in
-- front of the NUL; a pointer into a line is the text from it to the NUL that ends it, and `none` is NULL.
-- strtoul, from the engine of the formats, is a parameter.
pub mod Feed
pub mod Texts
pub mod Headers
pub mod Lines
use jaclibc.Base.{
  ℕ, zero, suc, ◌+◌, Bool, true, false, not, ◌&&◌, ◌==◌, ltb, leb, if◌then◌else◌, ℤ, pos, negsuc,
  Option, none, some, List, [], ◌∷◌, ◌++◌, length, take, map,
}
use jaclibc.Ctype.{tolower}

abbrev pub Text : Type 0
Text = List ℕ

-- http_method_t
pub data Method : Type 0 where
  get : Method
  post : Method
  put : Method
  delete : Method
  head : Method
  options : Method
  patch : Method
  connect : Method
  unknown : Method

-- http_stat_t, less HSTAT_VERSION, which nothing returns.
pub data FeedStatus : Type 0 where
  headers : FeedStatus
  more : FeedStatus
  error : FeedStatus
  upgraded : FeedStatus

-- What http_req_t holds of a request; hcount is the length of hdrs.
pub record Request : Type 0 where
  pub method : Method
  pub path : Option Text
  pub query : Option Text
  pub authority : Option Text
  pub version : ℕ
  pub hdrs : List (Text × Text)
  pub content_len : ℕ
  pub chunked : Bool
  pub keep_alive : Bool
  pub upgrade : Bool
  pub upgrade_proto : Option Text

-- HTTP_MAXHDR
abbrev pub max_headers : ℕ
max_headers = 32

-- strcmp(a, b) == 0
unfoldable pub same_text : Text → Text → Bool
same_text [] [] = true
same_text [] (b ∷ t) = false
same_text (a ∷ s) [] = false
same_text (a ∷ s) (b ∷ t) = a == b && same_text s t

-- strcasecmp(a, b) == 0
unfoldable pub same_folded : Text → Text → Bool
unfolding same_text tolower
same_folded a b = same_text (map tolower a) (map tolower b)

-- strchr(s, c) with the NUL that the callers store there: what stands in front of it and behind it.
unfoldable pub cut_at : ℕ → Text → Option (Text × Text)
cut_at c [] = none
cut_at c (a ∷ s) =
    let rest : Option (Text × Text) = elim (cut_at c s) [
      | none ↦ none
      | some (front, behind) ↦ some (a ∷ front, behind)
    ] in
    if a == c then some ([], s) else rest

abbrev pub method_names : List (Text × Method)
method_names =
    (b'G' ∷ b'E' ∷ b'T' ∷ [], get)
    ∷ (b'P' ∷ b'O' ∷ b'S' ∷ b'T' ∷ [], post)
    ∷ (b'P' ∷ b'U' ∷ b'T' ∷ [], put)
    ∷ (b'D' ∷ b'E' ∷ b'L' ∷ b'E' ∷ b'T' ∷ b'E' ∷ [], delete)
    ∷ (b'H' ∷ b'E' ∷ b'A' ∷ b'D' ∷ [], head)
    ∷ (b'O' ∷ b'P' ∷ b'T' ∷ b'I' ∷ b'O' ∷ b'N' ∷ b'S' ∷ [], options)
    ∷ (b'P' ∷ b'A' ∷ b'T' ∷ b'C' ∷ b'H' ∷ [], patch)
    ∷ (b'C' ∷ b'O' ∷ b'N' ∷ b'N' ∷ b'E' ∷ b'C' ∷ b'T' ∷ [], connect)
    ∷ []

-- The chain of strcmp tests.
unfoldable pub find_method : List (Text × Method) → Text → Method
unfolding same_text
find_method [] str = unknown
find_method ((name, m) ∷ names) str = if same_text str name then m else find_method names str

unfoldable pub http_parse_method : Text → Method
unfolding find_method
http_parse_method str = find_method method_names str

unfoldable pub http_method_str : Method → Text
http_method_str get = b'G' ∷ b'E' ∷ b'T' ∷ []
http_method_str post = b'P' ∷ b'O' ∷ b'S' ∷ b'T' ∷ []
http_method_str put = b'P' ∷ b'U' ∷ b'T' ∷ []
http_method_str delete = b'D' ∷ b'E' ∷ b'L' ∷ b'E' ∷ b'T' ∷ b'E' ∷ []
http_method_str head = b'H' ∷ b'E' ∷ b'A' ∷ b'D' ∷ []
http_method_str options = b'O' ∷ b'P' ∷ b'T' ∷ b'I' ∷ b'O' ∷ b'N' ∷ b'S' ∷ []
http_method_str patch = b'P' ∷ b'A' ∷ b'T' ∷ b'C' ∷ b'H' ∷ []
http_method_str connect = b'C' ∷ b'O' ∷ b'N' ∷ b'N' ∷ b'E' ∷ b'C' ∷ b'T' ∷ []
http_method_str unknown = b'U' ∷ b'N' ∷ b'K' ∷ b'N' ∷ b'O' ∷ b'W' ∷ b'N' ∷ []

-- while (*val == ' ' || *val == '\t') val++
unfoldable pub skip_blanks : Text → Text
skip_blanks [] = []
skip_blanks (c ∷ s) =
    let rest = skip_blanks s in if c == b' ' then rest else if c == 9 then rest else c ∷ s

-- The names that http_parse_header knows.
abbrev pub content_length_name : Text
content_length_name =
    b'C' ∷ b'o' ∷ b'n' ∷ b't' ∷ b'e' ∷ b'n' ∷ b't' ∷ b'-' ∷ b'L' ∷ b'e' ∷ b'n' ∷ b'g' ∷ b't' ∷ b'h'
    ∷ []

abbrev pub transfer_encoding_name : Text
transfer_encoding_name =
    b'T' ∷ b'r' ∷ b'a' ∷ b'n' ∷ b's' ∷ b'f' ∷ b'e' ∷ b'r' ∷ b'-' ∷ b'E' ∷ b'n' ∷ b'c' ∷ b'o' ∷ b'd'
    ∷ b'i' ∷ b'n' ∷ b'g' ∷ []

abbrev pub chunked_name : Text
chunked_name = b'c' ∷ b'h' ∷ b'u' ∷ b'n' ∷ b'k' ∷ b'e' ∷ b'd' ∷ []

abbrev pub connection_name : Text
connection_name = b'C' ∷ b'o' ∷ b'n' ∷ b'n' ∷ b'e' ∷ b'c' ∷ b't' ∷ b'i' ∷ b'o' ∷ b'n' ∷ []

abbrev pub close_name : Text
close_name = b'c' ∷ b'l' ∷ b'o' ∷ b's' ∷ b'e' ∷ []

abbrev pub upgrade_name : Text
upgrade_name = b'U' ∷ b'p' ∷ b'g' ∷ b'r' ∷ b'a' ∷ b'd' ∷ b'e' ∷ []

abbrev pub host_name : Text
host_name = b'H' ∷ b'o' ∷ b's' ∷ b't' ∷ []

-- The if chain on the key of a header.
unfoldable pub note_header : (Text → ℕ) → Request → Text → Text → Request
note_header strtoul req key val =
    if same_folded key content_length_name
    then record req { content_len = strtoul val }
    else if same_folded key transfer_encoding_name && same_folded val chunked_name
    then record req { chunked = true }
    else if same_folded key connection_name
    then record req { keep_alive = not (same_folded val close_name) }
    else if same_folded key upgrade_name
    then record req { upgrade = true; upgrade_proto = some val }
    else if same_folded key host_name
    then record req { authority = some val }
    else req

unfoldable pub http_parse_header : (Text → ℕ) → Request → Text → ℤ × Request
http_parse_header strtoul req line =
    if leb max_headers (length req.hdrs) then (negsuc 0, req) else (elim (cut_at b':' line) [
      | none ↦ (negsuc 0, req)
      | some (key, behind) ↦
          let val = skip_blanks behind in
          (pos 0, note_header strtoul (record req { hdrs = req.hdrs ++ (key, val) ∷ [] }) key val)
    ])

abbrev pub version_10_name : Text
version_10_name = b'H' ∷ b'T' ∷ b'T' ∷ b'P' ∷ b'/' ∷ b'1' ∷ b'.' ∷ b'0' ∷ []

-- From `req->path = p2` on, with the target and the version of the line.
unfoldable pub store_target : Request → Text → Text → Request
store_target req target version =
    let req' : Request = elim (cut_at b'?' target) [
      | none ↦ record req { path = some target; query = none; version = 257 }
      | some (front, q) ↦ record req { path = some front; query = some q; version = 257 }
    ] in
    if same_text version version_10_name
    then record req' { version = 256; keep_alive = false }
    else req'

unfoldable pub http_parse_request_line : Request → Text → FeedStatus × Request
http_parse_request_line req line = elim (cut_at b' ' line) [
  | none ↦ (error, req)
  | some (name, p2) ↦
      let req' : Request = record req { method = http_parse_method name } in
      elim (cut_at b' ' p2) [
        | none ↦ (error, req')
        | some (target, version) ↦ (more, store_target req' target version)
      ]
]

-- The loop of http_get_header.
unfoldable pub find_header : List (Text × Text) → Text → Option Text
unfolding same_folded
find_header [] key = none
find_header ((k, v) ∷ hdrs) key = if same_folded k key then some v else find_header hdrs key

unfoldable pub http_get_header : Request → Text → Option Text
unfolding find_header
http_get_header req key = find_header req.hdrs key

unfoldable pub http_is_upgrade : Request → Text → Bool
unfolding same_folded
http_is_upgrade req proto =
    req.upgrade && (elim req.upgrade_proto [ none ↦ false | some p ↦ same_folded p proto ])

-- HTTP2_PREFACE
abbrev pub preface : Text
preface =
    b'P' ∷ b'R' ∷ b'I' ∷ b' ' ∷ b'*' ∷ b' ' ∷ b'H' ∷ b'T' ∷ b'T' ∷ b'P' ∷ b'/' ∷ b'2' ∷ b'.' ∷ b'0'
    ∷ 13 ∷ 10 ∷ 13 ∷ 10 ∷ b'S' ∷ b'M' ∷ 13 ∷ 10 ∷ 13 ∷ 10 ∷ []

-- On the bytes of the buffer.
unfoldable pub http2_is_preface : List ℕ → Bool
unfolding same_text
http2_is_preface buf = leb 24 (length buf) && same_text (take 24 buf) preface

-- The tests of the name that ALPN agreed on; `none` where they give no version.
unfoldable pub alpn_version : Text → Option ℕ
unfolding same_text
alpn_version alpn =
    if same_text alpn (b'h' ∷ b'2' ∷ [])
    then some 512
    else if same_text alpn (b'h' ∷ b'3' ∷ [])
    then some 768
    else if same_text alpn (b'h' ∷ b't' ∷ b't' ∷ b'p' ∷ b'/' ∷ b'1' ∷ b'.' ∷ b'1' ∷ [])
    then some 257
    else none

unfoldable pub http_detect_version : Option Text → Option (List ℕ) → ℕ
unfolding alpn_version http2_is_preface
http_detect_version alpn first_bytes =
    let by_bytes : ℕ = elim first_bytes [
      | none ↦ 257
      | some buf ↦ if leb 24 (length buf) then (if http2_is_preface buf then 512 else 257) else 257
    ] in
    elim alpn [ none ↦ by_bytes | some a ↦ elim (alpn_version a) [ none ↦ by_bytes | some v ↦ v ] ]
