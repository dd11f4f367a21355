-- ===== src/Http/Lines.antt =====
-- The request line: what is refused, and what is read back.
use jaclibc.Base.{
  ◌<◌, ◌≤◌, ◌⊎◌, ◌≡◌, if◌then◌else◌, Option, none, some, Option-cases, ◌∷◌, ◌++◌, refl, sym, subst,
  arith, inl, inr, false,
}
use jaclibc.Http.{
  Text, Method, Request, more, error, same_text, version_10_name, cut_at, http_method_str,
  http_parse_method, store_target, http_parse_request_line,
}
use jaclibc.Http.Texts.{
  count_of, cut_at-append, cut_at-absent, cut_at-none, cut_at-some, count_of-append,
  parse_method-str, method_str-blank,
}

-- The target of a request with a path and a query.
abbrev pub target : Text → Option Text → Text
target path none = path
target path (some query) = path ++ b'?' ∷ query

store_target-hdrs :
    (req : Request) (t version : Text) → (store_target req t version).hdrs ≡ req.hdrs
unfolding store_target
store_target-hdrs req t version = ground arith

-- A request line is refused just where it has less than two blanks. Then nothing but the method changes;
-- else the headers are kept.
pub request_line_errors :
    (req : Request) (line : Text)
    → let (st, req') = http_parse_request_line req line in
      ((count_of b' ' line < 2) × (st ≡ error) × (req' ≡ record req { method = req'.method }))
      ⊎ ((2 ≤ count_of b' ' line) × (st ≡ more) × (req'.hdrs ≡ req.hdrs))
unfolding http_parse_request_line
request_line_errors req line = elim (Option-cases (cut_at b' ' line)) [
  | inl n ↦ ground (arith, n, cut_at-none b' ' line n)
  | inr ((name, p2), e) ↦
      let (split, front) = cut_at-some b' ' line name p2 e in
      elim (Option-cases (cut_at b' ' p2)) [
        | inl n ↦ inl (
          ground (
            arith,
            split,
            front,
            n,
            cut_at-none b' ' p2 n,
            count_of-append b' ' name (b' ' ∷ p2),
          ),
          ground (arith, e, n),
          ground (arith, e, n),
        )
        | inr ((t, version), e2) ↦ inr (
          ground (
            arith,
            split,
            front,
            cut_at-some b' ' p2 t version e2,
            count_of-append b' ' name (b' ' ∷ p2),
            count_of-append b' ' t (b' ' ∷ version),
          ),
          ground (arith, e, e2),
          ground (
            arith,
            e,
            e2,
            store_target-hdrs (record req { method = http_parse_method name }) t version,
          ),
        )
      ]
]

store_target-path :
    (req : Request) (path : Text) (query : Option Text) (version : Text)
    → count_of b'?' path ≡ 0
    → let req' = store_target req (target path query) version in
      (req'.method ≡ req.method)
      × (req'.path ≡ some path)
      × (req'.query ≡ query)
      × (req'.version ≡ (if same_text version version_10_name then 256 else 257))
      × (req'.keep_alive ≡ (if same_text version version_10_name then false else req.keep_alive))
      × (req'.hdrs ≡ req.hdrs)
unfolding store_target
store_target-path req path none version q = ground (arith, cut_at-absent b'?' path q)
store_target-path req path (some query) version q = ground (arith, cut_at-append b'?' path query q)

request_line-built :
    (req : Request) (m : Method) (t version : Text)
    → count_of b' ' t ≡ 0
    → http_parse_request_line req (http_method_str m ++ b' ' ∷ (t ++ b' ' ∷ version))
      ≡ (more, store_target (record req { method = m }) t version)
unfolding http_parse_request_line
request_line-built req m t version blank = ground (
  arith,
  cut_at-append b' ' (http_method_str m) (t ++ b' ' ∷ version) (method_str-blank m),
  cut_at-append b' ' t version blank,
  parse_method-str m,
)

-- A request line with the name of a method, a path without '?' and perhaps a query, both without blanks,
-- is read back; the version is HTTP/1.0 where the line says so, which ends the connection, and else
-- HTTP/1.1.
pub request_line_reads :
    (req : Request) (m : Method) (path : Text) (query : Option Text) (version : Text)
    → count_of b'?' path ≡ 0
    → count_of b' ' (target path query) ≡ 0
    → let (st, req') =
        http_parse_request_line req
          (http_method_str m ++ b' ' ∷ (target path query ++ b' ' ∷ version)) in
      (st ≡ more)
      × (req'.method ≡ m)
      × (req'.path ≡ some path)
      × (req'.query ≡ query)
      × (req'.version ≡ (if same_text version version_10_name then 256 else 257))
      × (req'.keep_alive ≡ (if same_text version version_10_name then false else req.keep_alive))
      × (req'.hdrs ≡ req.hdrs)
request_line_reads req m path query version q blank =
    let (a, b, c, d, e, f) = store_target-path (record req { method = m }) path query version q in
    subst
      (λ r.
        (r.0 ≡ more)
        × (r.1.method ≡ m)
        × (r.1.path ≡ some path)
        × (r.1.query ≡ query)
        × (r.1.version ≡ (if same_text version version_10_name then 256 else 257))
        × (r.1.keep_alive ≡ (if same_text version version_10_name then false else req.keep_alive))
        × (r.1.hdrs ≡ req.hdrs))
      (sym (request_line-built req m (target path query) version blank)) (refl, a, b, c, d, e, f)
