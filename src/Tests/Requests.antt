-- ===== src/Tests/Requests.antt =====
-- Runs of the parser of include/transit/http.h.
use jaclibc.Base.{
  ℕ, ◌+◌, ◌-◌, ◌*◌, ◌≡◌, ◌≢◌, ◌≤◌, ◌<◌, ◌⊎◌, true, false, if◌then◌else◌, some, List, [], ◌∷◌, ◌++◌,
  get_or, refl, arith,
}
use jaclibc.Memory.{Memory}
use jaclibc.Http.{
  Text, get, put, more, error, headers, same_text, same_folded, version_10_name, http_method_str,
  http_parse_header, http_parse_request_line, cut_at, store_target, note_header, http_parse_method,
  skip_blanks,
}
use jaclibc.Http.Feed.{Session, empty_request, http_init, http_reset, http_feed}
use jaclibc.Http.Feed.Pieces.{splice, arrived, http_feed_in_pieces}
use jaclibc.Http.Texts.{count_of}
use jaclibc.Http.Lines.{target, request_line_errors, request_line_reads}

abbrev memory_of : List ℕ → Memory
memory_of bytes q = get_or bytes q 0

-- A number without a sign or blanks.
abbrev decimal : Text → ℕ → ℕ
decimal [] n = n
decimal (c ∷ s) n = decimal s (n * 10 + (c - b'0'))

abbrev to_number : Text → ℕ
to_number s = decimal s 0

abbrev get_line : Text
get_line =
    b'G' ∷ b'E' ∷ b'T' ∷ b' ' ∷ b'/' ∷ b'a' ∷ b'?' ∷ b'b' ∷ b' ' ∷ b'H' ∷ b'T' ∷ b'T' ∷ b'P' ∷ b'/'
    ∷ b'1' ∷ b'.' ∷ b'1' ∷ []

abbrev host_line : Text
host_line = b'H' ∷ b'o' ∷ b's' ∷ b't' ∷ b':' ∷ b' ' ∷ b'x' ∷ []

abbrev crlf : Text
crlf = 13 ∷ 10 ∷ []

-- 30 bytes
abbrev message : Memory
message = memory_of (get_line ++ crlf ++ host_line ++ crlf ++ crlf)

abbrev after_message : Session
after_message =
    let (r, o) = http_feed to_number 64 30 http_init message in
    record { parser = r.parser; offset = o }

-- One call reads the whole request.
whole_request :
    let (r, o) = http_feed to_number 64 30 http_init message in
    (r.stat ≡ headers)
    × (r.consumed ≡ 30)
    × (r.parser.req ≡ record empty_request {
      method = get;
      path = some (b'/' ∷ b'a' ∷ []);
      query = some (b'b' ∷ []);
      authority = some (b'x' ∷ []);
      hdrs = (b'H' ∷ b'o' ∷ b's' ∷ b't' ∷ [], b'x' ∷ []) ∷ [];
    })
unfolding http_init http_feed http_parse_request_line http_parse_header cut_at store_target
    same_text note_header same_folded http_parse_method skip_blanks
whole_request = (refl, refl, refl)

-- http_reset leaves the start of the line where the last request had its empty line, so that the next
-- request in the buffer is refused.
reset_refuses :
    let (r, o) = http_feed to_number 64 30 (http_reset after_message) message in (r.stat ≡ error)
unfolding http_init http_reset http_feed http_parse_request_line http_parse_header cut_at
reset_refuses = refl

http_feed_in_pieces_example :
    let (r, o) = http_feed to_number 64 20 http_init message in
    let (whole, _) = http_feed to_number 64 30 http_init (splice 20 message message) in
    let (second, _) =
      http_feed to_number 64 30
        (record { parser = r.parser; offset = o })
        (splice 20 r.buf message) in
    ((r.stat ≡ more) × (second ≡ whole)) ⊎ ((r.stat ≢ more) × (whole ≡ arrived 20 message r))
unfolding http_init
http_feed_in_pieces_example =
    http_feed_in_pieces to_number 64 20 10 http_init message message (omega arith) (omega arith)

request_line_errors_example :
    let (st, req') = http_parse_request_line empty_request get_line in
    ((count_of b' ' get_line < 2)
      × (st ≡ error)
      × (req' ≡ record empty_request { method = req'.method }))
    ⊎ ((2 ≤ count_of b' ' get_line) × (st ≡ more) × (req'.hdrs ≡ []))
request_line_errors_example = request_line_errors empty_request get_line

abbrev put_path : Text
put_path = b'/' ∷ b'a' ∷ []

abbrev put_query : Text
put_query = b'b' ∷ b'?' ∷ []

request_line_reads_example :
    let (st, req') = http_parse_request_line empty_request (
      http_method_str put ++ b' ' ∷ (target put_path (some put_query) ++ b' ' ∷ version_10_name)) in
    (st ≡ more)
    × (req'.method ≡ put)
    × (req'.path ≡ some put_path)
    × (req'.query ≡ some put_query)
    × (req'.version ≡ (if same_text version_10_name version_10_name then 256 else 257))
    × (req'.keep_alive ≡ (if same_text version_10_name version_10_name then false else true))
    × (req'.hdrs ≡ [])
request_line_reads_example =
    request_line_reads empty_request put put_path (some put_query) version_10_name refl refl

abbrev host_key : Text
host_key = b'h' ∷ b'O' ∷ b's' ∷ b't' ∷ []
