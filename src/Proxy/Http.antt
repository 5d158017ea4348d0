-- ===== src/Proxy/Http.antt =====
-- proxy_service.rs: HTTP proxy requests, `parse_http_proxy_request`, `rewrite_http_proxy_request`,
-- `find_header_end` and `parse_host_port`.
pub mod HostPort
pub mod Body
pub mod Rewrite
use libreatrust.Base.{
  Bool, List, Option, Text, [], any, codes, concat, drop, eq_ignore_ascii_case, filter,
  if◌then◌else◌, is_empty, length, ltb, map, none, not, rsplit_once, some, split_on, split_once,
  split_whitespace, starts_with, suc, take, text_eq, to_ascii_lowercase, trim, ℕ, ◌&&◌, ◌++◌, ◌+◌,
  ◌==◌, ◌||◌, ◌∷◌,
}
use libreatrust.Error.{AtrResult, about, err, invalid_argument, literal, ok, parse_failed, ◌>>=◌}
use libreatrust.Decimal.{parse_u16}
use libreatrust.Utf8.{encode, from_utf8}

pub record HttpProxyRequest : Type 0 where
  pub method : Text
  pub target : Text
  pub version : Text
  pub headers : List (Text × Text)
  pub body : List ℕ

-- `find_header_end`
unfoldable pub find_header_end : List ℕ → Option ℕ
find_header_end [] = none
find_header_end (b ∷ buffer) =
    let rest = find_header_end buffer in
    if starts_with (13 ∷ 10 ∷ 13 ∷ 10 ∷ []) (b ∷ buffer)
    then some 0
    else elim rest [ none ↦ none | some i ↦ some (suc i) ]

-- One more character before the pieces of `split("\r\n")`.
abbrev push_char : ℕ → List Text → List Text
push_char c [] = (c ∷ []) ∷ []
push_char c ([] ∷ pieces) = (c ∷ []) ∷ pieces
push_char c ((d ∷ piece) ∷ pieces) =
    if c == 13 && d == 10 then [] ∷ piece ∷ pieces else (c ∷ d ∷ piece) ∷ pieces

unfoldable pub split_lines : Text → List Text
split_lines [] = [] ∷ []
split_lines (c ∷ s) = push_char c (split_lines s)

-- The headers among the lines: those with a colon.
unfoldable pub header_pairs : List Text → List (Text × Text)
header_pairs [] = []
header_pairs (line ∷ lines) =
    let rest = header_pairs lines in
    elim (split_once b':' line) [
      | none ↦ rest
      | some (name, value) ↦ (trim name, trim value) ∷ rest
    ]

-- The request line: its first three words.
unfoldable pub request_words : List Text → AtrResult (Text × Text × Text)
request_words [] = err (parse_failed (literal "missing method"))
request_words (method ∷ []) = err (parse_failed (literal "missing target"))
request_words (method ∷ target ∷ []) = err (parse_failed (literal "missing version"))
request_words (method ∷ target ∷ version ∷ more) = ok (method, target, version)

unfoldable pub read_request : List ℕ → List Text → AtrResult HttpProxyRequest
unfolding header_pairs request_words
read_request rest [] = err (parse_failed (literal "missing request line"))
read_request rest (request_line ∷ lines) = do
  words ← request_words (split_whitespace request_line)
  ok (record {
    method = words.0;
    target = words.1;
    version = words.2;
    headers = header_pairs lines;
    body = rest;
  })

-- `parse_http_proxy_request`
unfoldable pub parse_http_proxy_request : List ℕ → AtrResult HttpProxyRequest
unfolding find_header_end split_lines read_request
parse_http_proxy_request buffer = elim (find_header_end buffer) [
  | none ↦ err (parse_failed (literal "incomplete http proxy request"))
  | some header_end ↦ elim (from_utf8 (take header_end buffer)) [
    | none ↦ err (parse_failed (about "invalid utf-8 sequence" (take header_end buffer)))
    | some header ↦ read_request (drop (header_end + 4) buffer) (split_lines header)
  ]
]

-- `parse_host_port`
unfoldable pub bracketed_port : Text → ℕ → ℕ
bracketed_port [] default_port = default_port
bracketed_port (c ∷ port) default_port =
    if c == b':' then elim (parse_u16 port) [ none ↦ default_port | some p ↦ p ] else default_port

unfoldable pub plain_host_port : Text → ℕ → Text × ℕ
plain_host_port value default_port = elim (rsplit_once b':' value) [
  | none ↦ (value, default_port)
  | some (host, port) ↦ elim (parse_u16 port) [ none ↦ (value, default_port) | some p ↦ (host, p) ]
]

unfoldable pub parse_host_port : Text → ℕ → AtrResult (Text × ℕ)
unfolding bracketed_port plain_host_port
parse_host_port [] default_port = ok ([], default_port)
parse_host_port (c ∷ s) default_port =
    if c == b'['
    then elim (split_once b']' s) [
      | none ↦ err (invalid_argument (literal "invalid bracketed host"))
      | some (host, rest) ↦ ok (host, bracketed_port rest default_port)
    ]
    else ok (plain_host_port (c ∷ s) default_port)

-- `target.split_once("://")`
unfoldable pub split_scheme : Text → Option (Text × Text)
split_scheme [] = none
split_scheme (c ∷ s) =
    let rest = split_scheme s in
    if starts_with (codes "://") (c ∷ s)
    then some ([], drop 3 (c ∷ s))
    else elim rest [ none ↦ none | some (scheme, after) ↦ some (c ∷ scheme, after) ]

-- `rest.find('/').unwrap_or(rest.len())`
unfoldable pub find_slash : Text → ℕ
find_slash [] = 0
find_slash (c ∷ s) = let rest = find_slash s in if c == b'/' then 0 else suc rest

-- The tokens of the `Connection` and `Proxy-Connection` headers.
unfoldable pub connection_tokens : List (Text × Text) → List Text
connection_tokens headers =
    let named : Text × Text → Bool = λ h.
      eq_ignore_ascii_case h.0 (codes "connection")
      || eq_ignore_ascii_case h.0 (codes "proxy-connection") in
    let pieces = concat (map (λ h. split_on (λ c. c == b',') h.1) (filter named headers)) in
    filter (λ t. not (is_empty t)) (map (λ t. to_ascii_lowercase (trim t)) pieces)

unfoldable pub is_upgrade : List (Text × Text) → Bool
unfolding connection_tokens
is_upgrade headers =
    any (λ t. text_eq t (codes "upgrade")) (connection_tokens headers)
    && any (λ h. eq_ignore_ascii_case h.0 (codes "upgrade")) headers

-- Whether a header concerns the client's connection alone.
unfoldable pub hop_by_hop : List Text → Bool → Text → Bool
hop_by_hop tokens upgrade name =
    let low = to_ascii_lowercase name in
    text_eq low (codes "connection")
    || text_eq low (codes "proxy-connection")
    || text_eq low (codes "keep-alive")
    || text_eq low (codes "proxy-authorization")
    || (any (λ t. text_eq t low) tokens && not (upgrade && text_eq low (codes "upgrade")))

abbrev pub line_end : Text
line_end = 13 ∷ 10 ∷ []

abbrev pub header_line : Text × Text → List ℕ
header_line h = encode (h.0 ++ (codes ": " ++ (h.1 ++ line_end)))

-- The loop that writes the headers.
unfoldable pub header_lines : (Text → Bool) → List (Text × Text) → List ℕ
header_lines dropped [] = []
header_lines dropped (h ∷ headers) =
    let rest = header_lines dropped headers in if dropped h.0 then rest else header_line h ++ rest

abbrev pub closing : Bool → List ℕ
closing upgrade = encode (
    codes (if upgrade then "Connection: Upgrade" else "Connection: close")
    ++ (line_end ++ line_end))

-- The request that is sent on, for the path `path`.
unfoldable pub rewritten : HttpProxyRequest → Text → List ℕ
unfolding is_upgrade hop_by_hop header_lines
rewritten request path =
    let upgrade = is_upgrade request.headers in
    let dropped = hop_by_hop (connection_tokens request.headers) upgrade in
    encode (request.method ++ (codes " " ++ (path ++ (codes " " ++ (request.version ++ line_end)))))
    ++ (header_lines dropped request.headers ++ (closing upgrade ++ request.body))

abbrev pub request_path : Text → Text
request_path rest =
    if ltb (find_slash rest) (length rest) then drop (find_slash rest) rest else codes "/"

-- The two parts of the target, where it is absolute.
unfoldable pub rewrite_target :
    HttpProxyRequest → Option (Text × Text) → AtrResult (Text × ℕ × List ℕ)
unfolding find_slash parse_host_port rewritten
rewrite_target request none =
    err (invalid_argument (literal "http proxy request target is not absolute"))
rewrite_target request (some (scheme, rest)) = do
  let default_port = if eq_ignore_ascii_case scheme (codes "https") then 443 else 80
  target ← parse_host_port (take (find_slash rest) rest) default_port
  ok (target.0, target.1, rewritten request (request_path rest))

-- `rewrite_http_proxy_request`
unfoldable pub rewrite_http_proxy_request : HttpProxyRequest → AtrResult (Text × ℕ × List ℕ)
unfolding split_scheme rewrite_target
rewrite_http_proxy_request request = rewrite_target request (split_scheme request.target)
