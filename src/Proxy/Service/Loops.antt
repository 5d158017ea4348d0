-- ===== src/Proxy/Service/Loops.antt =====
-- proxy_service.rs: the loops that read from a client end.
use libreatrust.Base.{
  Bool, List, Option-cases, String, [], arith, false, if_both, if◌then◌else◌, inl, inr, is_empty,
  leb, length, length-drop, ltb, none, some, suc, true, zero, ℕ, ◌++◌, ◌<◌, ◌∷◌,
}
use libreatrust.Stream.{
  IoResult, Reader, byte_count, chunk, fail, failed, failure, pure, ready, stuck, would_block,
  ◌>>=◌,
}
use libreatrust.Error.{
  AtrError, AtrResult-cases, err, invalid_argument, literal, network_failed, ok,
}
use libreatrust.Proxy.Socks.{Socks5ConnectRequest, parse_socks5_connect, parse_socks5_greeting}
use libreatrust.Proxy.Http.{find_header_end}
use libreatrust.Proxy.Service.{
  System, append_read, connect_loop, greeting_loop, limited, max_header_size, read_buf_size,
  read_some,
}
use libreatrust.Proxy.Service.Requests.{header_loop}

-- A step that does not run out of rounds.
abbrev pub NotStuck : {A : Type 0} → IoResult A → Type 0
NotStuck (ready a rest) = Unit
NotStuck (failed e) = Unit
NotStuck stuck = ⊥

-- A step that takes a byte at least where it succeeds.
abbrev Shrinks : ℕ → IoResult (List ℕ) → Type 0
Shrinks n (ready bytes rest) = byte_count rest < n
Shrinks n (failed e) = Unit
Shrinks n stuck = ⊥

next-NotStuck :
    {B : Type 0} (n : ℕ) (f : List ℕ → Reader → IoResult B) (r : IoResult (List ℕ))
    → Shrinks n r
    → ((bytes : List ℕ) (rest : Reader) → byte_count rest < n → NotStuck (f bytes rest))
    → NotStuck (elim r as (λ x. IoResult B) [
      | ready bytes rest ↦ f bytes rest
      | failed e ↦ failed e
      | stuck ↦ stuck
    ])
next-NotStuck n f (ready bytes rest) h k = k bytes rest h
next-NotStuck n f (failed e) h k = tt
next-NotStuck n f stuck h k = absurd h

-- What a test of the bytes keeps.
if-Shrinks :
    (n : ℕ) (b : Bool) (e : AtrError) (bytes : List ℕ) (events : Reader)
    → byte_count events < n
    → Shrinks n ((if b then fail e else pure bytes) events)
if-Shrinks n true e bytes events h = tt
if-Shrinks n false e bytes events h = h

module _ (system : System) where
  append_read-Shrinks :
      (buffer : List ℕ) (events : Reader)
      → Shrinks (byte_count events) (append_read system buffer events)
  unfolding append_read read_some
  append_read-Shrinks buffer [] = tt
  append_read-Shrinks buffer (would_block ∷ events) = tt
  append_read-Shrinks buffer (failure m ∷ events) = tt
  append_read-Shrinks buffer (chunk [] ∷ events) = tt
  append_read-Shrinks buffer (chunk (b ∷ bytes) ∷ events) =
      if_both
        (λ r. Shrinks (byte_count (chunk (b ∷ bytes) ∷ events)) (
          ((λ _. r) >>= λ front.
          if is_empty front
          then fail (network_failed (literal "connection closed"))
          else pure (buffer ++ front))
            events))
        (leb (length (b ∷ bytes)) read_buf_size) _ _ (omega arith)
        (omega (arith, length-drop 65535 bytes))

  limited-Shrinks :
      (text : String) (n : ℕ) (r : IoResult (List ℕ))
      → Shrinks n r
      → Shrinks n (elim r as (λ x. IoResult (List ℕ)) [
        | ready more rest ↦ limited system text more rest
        | failed e ↦ failed e
        | stuck ↦ stuck
      ])
  limited-Shrinks text n (ready more rest) h =
      if-Shrinks n (ltb max_header_size (length more)) (invalid_argument (literal text)) more rest h
  limited-Shrinks text n (failed e) h = tt
  limited-Shrinks text n stuck h = absurd h

  pub greeting_loop-NotStuck :
      (rounds : ℕ) (buffer : List ℕ) (events : Reader)
      → byte_count events < rounds
      → NotStuck (greeting_loop system rounds buffer events)
  unfolding greeting_loop
  greeting_loop-NotStuck zero buffer events h = absurd (omega arith)
  greeting_loop-NotStuck (suc rounds) buffer events h =
      elim (AtrResult-cases (parse_socks5_greeting buffer)) [
        | inr (d, e) ↦ rw (e, greeting_loop) tt
        | inl (found, e) ↦
            rw (e, greeting_loop)
              (elim (Option-cases found) [
                | inr (len, f) ↦ rw f tt
                | inl f ↦ rw f (
                    next-NotStuck (byte_count events)
                      (λ more rest. greeting_loop system rounds more rest)
                      ((append_read system buffer >>= limited system "socks5 greeting too large")
                        events)
                      (limited-Shrinks "socks5 greeting too large" (byte_count events)
                        (append_read system buffer events) (append_read-Shrinks buffer events))
                      (λ more rest less.
                        greeting_loop-NotStuck rounds more rest (omega (arith, h, less))))
              ])
      ]

  pub header_loop-NotStuck :
      (rounds : ℕ) (buffer : List ℕ) (events : Reader)
      → byte_count events < rounds
      → NotStuck (header_loop system rounds buffer events)
  unfolding header_loop
  header_loop-NotStuck zero buffer events h = absurd (omega arith)
  header_loop-NotStuck (suc rounds) buffer events h = elim (Option-cases (find_header_end buffer)) [
    | inr (end, e) ↦ rw (e, header_loop) tt
    | inl e ↦
        rw (e, header_loop)
          (next-NotStuck (byte_count events)
            (λ more rest.
              if ltb max_header_size (length more)
              then failed (invalid_argument (literal "http proxy header too large"))
              else header_loop system rounds more rest)
            (append_read system buffer events) (append_read-Shrinks buffer events)
            (λ more rest less.
              if_both NotStuck (ltb max_header_size (length more)) _ _ tt
                (header_loop-NotStuck rounds more rest (omega (arith, h, less)))))
  ]

  pub connect_loop-NotStuck :
      (rounds : ℕ) (buffer : List ℕ) (events : Reader)
      → byte_count events < rounds
      → NotStuck (connect_loop system rounds buffer events)
  unfolding connect_loop
  connect_loop-NotStuck zero buffer events h = absurd (omega arith)
  connect_loop-NotStuck (suc rounds) buffer events h =
      next-NotStuck (byte_count events)
        (λ more rest. elim (parse_socks5_connect more) as (λ x. IoResult Socks5ConnectRequest) [
          | err e ↦ failed e
          | ok (some request) ↦ ready request rest
          | ok none ↦
              elim (limited system "socks5 request too large" more rest)
                as (λ x. IoResult Socks5ConnectRequest) [
                  | ready same rest' ↦ connect_loop system rounds same rest'
                  | failed e ↦ failed e
                  | stuck ↦ stuck
                ]
        ])
        (append_read system buffer events) (append_read-Shrinks buffer events)
        (λ more rest less. elim (AtrResult-cases (parse_socks5_connect more)) [
          | inr (d, e) ↦ rw e tt
          | inl (found, e) ↦ rw e (elim (Option-cases found) [
            | inr (request, f) ↦ rw f tt
            | inl f ↦ rw f (
                next-NotStuck (byte_count events)
                  (λ same rest'. connect_loop system rounds same rest')
                  (limited system "socks5 request too large" more rest)
                  (if-Shrinks (byte_count events) (ltb max_header_size (length more)) _ more rest
                    less)
                  (λ same rest' less'.
                    connect_loop-NotStuck rounds same rest' (omega (arith, h, less'))))
          ])
        ])
