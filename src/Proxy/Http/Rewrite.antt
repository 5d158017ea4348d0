-- ===== src/Proxy/Http/Rewrite.antt =====
-- proxy_service.rs: what the server reads in a rewritten request.
use libreatrust.Base.{
  All, Bool, Bool-cases, List, Option-cases, Text, [], all, ap, append_assoc, arith, codes, drop,
  eq_ignore_ascii_case, false, if◌then◌else◌, inl, inr, length, ltb, none, not, refl, some,
  starts_with, subst, suc, sym, take, true, zero, ℕ, ◌++◌, ◌==◌, ◌∙◌, ◌∷◌, ◌≡◌, ◌≢◌,
}
use libreatrust.Error.{AtrError, AtrResult, err, ok, ◌>>=◌}
use libreatrust.Utf8.{encode, encode_char}
use libreatrust.Proxy.Http.{
  HttpProxyRequest, closing, connection_tokens, find_slash, header_line, header_lines, hop_by_hop,
  is_upgrade, line_end, parse_host_port, request_path, rewrite_http_proxy_request, rewrite_target,
  rewritten, split_scheme,
}
use libreatrust.Proxy.Http.Body.{
  EndsBefore, EndsBefore-now, EndsBefore-text, Line, Line-first, Line-Line, NoReturn,
  NoReturn-append,
}

pub NoReturn-test : (s : Text) → all (λ c. not (c == 13)) s ≡ true → NoReturn s
NoReturn-test [] h = tt
NoReturn-test (c ∷ s) h = elim (Bool-cases (c == 13)) [
  | inl e ↦ absurd (ground (arith, e))
  | inr e ↦ ((λ z. absurd (ground (arith, e, z))), NoReturn-test s (rw e at h))
]

closing-Line : (upgrade : Bool) (body : List ℕ) → Line (closing upgrade ++ body) body
unfolding encode encode_char
closing-Line true body =
    Line-first (codes "Connection: Upgrade") (13 ∷ 10 ∷ 13 ∷ 10 ∷ body) body (λ e. cc)
      (NoReturn-test (codes "Connection: Upgrade") refl)
      (EndsBefore-text (codes "Connection: Upgrade") (13 ∷ 10 ∷ 13 ∷ 10 ∷ body) body
        (NoReturn-test (codes "Connection: Upgrade") refl) (EndsBefore-now body))
closing-Line false body =
    Line-first (codes "Connection: close") (13 ∷ 10 ∷ 13 ∷ 10 ∷ body) body (λ e. cc)
      (NoReturn-test (codes "Connection: close") refl)
      (EndsBefore-text (codes "Connection: close") (13 ∷ 10 ∷ 13 ∷ 10 ∷ body) body
        (NoReturn-test (codes "Connection: close") refl) (EndsBefore-now body))

append-ne-nil : (s : Text) (c : ℕ) (t : Text) → s ++ (c ∷ t) ≢ []
append-ne-nil [] c t e = cc
append-ne-nil (d ∷ s) c t e = cc

-- No carriage return stands in a header.
abbrev pub PlainHeader : Text × Text → Type 0
PlainHeader h = NoReturn h.0 × NoReturn h.1

header_line-Line :
    (h : Text × Text) (more body : List ℕ)
    → PlainHeader h
    → Line more body
    → Line (header_line h ++ more) body
header_line-Line (name, value) more body (hn, hv) l =
    let text = name ++ (codes ": " ++ value) in
    let whole : name ++ (codes ": " ++ (value ++ line_end)) ≡ text ++ line_end =
      sym (append_assoc name (codes ": " ++ value) line_end) in
    subst (λ s. Line (encode s ++ more) body) (sym whole)
      (Line-Line text more body (append-ne-nil name b':' (b' ' ∷ value))
        (NoReturn-append name (codes ": " ++ value) hn
          (NoReturn-append (codes ": ") value (NoReturn-test (codes ": ") refl) hv))
        l)

header_lines-Line :
    (dropped : Text → Bool) (headers : List (Text × Text)) (more body : List ℕ)
    → All PlainHeader headers
    → Line more body
    → Line (header_lines dropped headers ++ more) body
unfolding header_lines
header_lines-Line dropped [] more body hs l = l
header_lines-Line dropped (h ∷ headers) more body hs l =
    let rest = header_lines-Line dropped headers more body hs.1 l in
    elim (Bool-cases (dropped h.0)) [
      | inl e ↦ rw e rest
      | inr e ↦ rw e (
          subst (λ b. Line b body)
            (sym (append_assoc (header_line h) (header_lines dropped headers) more))
            (header_line-Line h (header_lines dropped headers ++ more) body hs.0 rest))
    ]

rewritten-EndsBefore :
    (request : HttpProxyRequest) (path : Text)
    → NoReturn request.method
    → NoReturn path
    → NoReturn request.version
    → All PlainHeader request.headers
    → EndsBefore (rewritten request path) request.body
unfolding rewritten
rewritten-EndsBefore request path hm hp hv hs =
    let upgrade = is_upgrade request.headers in
    let dropped = hop_by_hop (connection_tokens request.headers) upgrade in
    let after = closing upgrade ++ request.body in
    let tail = path ++ (codes " " ++ request.version) in
    let text = request.method ++ (codes " " ++ tail) in
    let space = NoReturn-test (codes " ") refl in
    let whole : request.method
          ++ (codes " " ++ (path ++ (codes " " ++ (request.version ++ line_end))))
        ≡ text ++ line_end =
      ap (λ t. request.method ++ (codes " " ++ t))
        (sym (append_assoc path (codes " " ++ request.version) line_end))
      ∙ sym (append_assoc request.method (codes " " ++ tail) line_end) in
    let (d, rest, e, hd, ends) =
      subst (λ s. Line (encode s ++ (header_lines dropped request.headers ++ after)) request.body)
        (sym whole)
        (Line-Line text (header_lines dropped request.headers ++ after) request.body
          (append-ne-nil request.method b' ' tail)
          (NoReturn-append request.method (codes " " ++ tail) hm (
            NoReturn-append (codes " ") tail space (
              NoReturn-append path (codes " " ++ request.version) hp
                (NoReturn-append (codes " ") request.version space hv))))
          (header_lines-Line dropped request.headers after request.body hs
            (closing-Line upgrade request.body))) in
    ends

drop-NoReturn : (n : ℕ) (s : Text) → NoReturn s → NoReturn (drop n s)
drop-NoReturn zero s h = h
drop-NoReturn (suc n) [] h = tt
drop-NoReturn (suc n) (c ∷ s) h = drop-NoReturn n s h.1

none_is_some : (p : Text × Text) → none ≡ some p → ⊥
none_is_some p e = cc

split_scheme-NoReturn :
    (s scheme rest : Text) → NoReturn s → split_scheme s ≡ some (scheme, rest) → NoReturn rest
unfolding split_scheme
split_scheme-NoReturn [] scheme rest h e = absurd (none_is_some (scheme, rest) e)
split_scheme-NoReturn (c ∷ s) scheme rest h e =
    elim (Bool-cases (starts_with (codes "://") (c ∷ s))) [
      | inl found ↦
          let e1 : some ([], drop 3 (c ∷ s)) ≡ some (scheme, rest) =
            rw (found, split_scheme) at e in
          let same : drop 3 (c ∷ s) ≡ rest = cc in subst NoReturn same (drop-NoReturn 3 (c ∷ s) h)
      | inr other ↦
          let e1 = rw (other, split_scheme) at e in
          elim (Option-cases (split_scheme s)) [
            | inl missing ↦ absurd (none_is_some (scheme, rest) (rw (missing, split_scheme) at e1))
            | inr ((front, after), found) ↦
                let e2 : some (c ∷ front, after) ≡ some (scheme, rest) =
                  rw (found, split_scheme) at e1 in
                let same : after ≡ rest = cc in
                subst NoReturn same (split_scheme-NoReturn s front after h.1 found)
          ]
    ]

request_path-NoReturn : (rest : Text) → NoReturn rest → NoReturn (request_path rest)
request_path-NoReturn rest h = elim (Bool-cases (ltb (find_slash rest) (length rest))) [
  | inl inside ↦ rw inside (drop-NoReturn (find_slash rest) rest h)
  | inr missing ↦ rw missing (NoReturn-test (codes "/") refl)
]

err_is_ok : (d : AtrError) (r : Text × ℕ × List ℕ) → err d ≡ ok r → ⊥
err_is_ok d r h = cc

sent_output :
    (target : AtrResult (Text × ℕ)) (sent : List ℕ) (result : Text × ℕ × List ℕ)
    → (target >>= λ t. ok (t.0, t.1, sent)) ≡ ok result
    → sent ≡ result.2
sent_output (ok t) sent result e = let same : (t.0, t.1, sent) ≡ result = cc in ap (λ r. r.2) same
sent_output (err d) sent result e = absurd (err_is_ok d result e)

-- In a request that is sent on, the first empty line stands right before the body of the request
-- that came in, and what follows it is exactly this body, where no carriage return stands in the
-- method, the target, the version and the headers.
pub rewrite_http_proxy_request-body :
    (request : HttpProxyRequest) (host : Text) (port : ℕ) (output : List ℕ)
    → NoReturn request.method
    → NoReturn request.target
    → NoReturn request.version
    → All PlainHeader request.headers
    → rewrite_http_proxy_request request ≡ ok (host, port, output)
    → EndsBefore output request.body
unfolding rewrite_http_proxy_request rewrite_target
rewrite_http_proxy_request-body request host port output hm ht hv hs e =
    elim (Option-cases (split_scheme request.target)) [
      | inl missing ↦ absurd (err_is_ok _ (host, port, output) (rw (missing, rewrite_target) at e))
      | inr ((scheme, rest), found) ↦
          let path = request_path rest in
          let same : rewritten request path ≡ output =
            sent_output
              (parse_host_port (take (find_slash rest) rest)
                (if eq_ignore_ascii_case scheme (codes "https") then 443 else 80))
              (rewritten request path) (host, port, output) (rw (found, rewrite_target) at e) in
          let plain =
            request_path-NoReturn rest
              (split_scheme-NoReturn request.target scheme rest ht found) in
          subst (λ b. EndsBefore b request.body) same
            (rewritten-EndsBefore request path hm plain hv hs)
    ]
