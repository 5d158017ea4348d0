-- ===== src/Auth/Bodies/Checks.antt =====
-- auth.rs: which replies to `clientResource` are taken, and how those that are not are reported.
use libreatrust.Base.{
  Bool-cases, List, Option, ap, arith, codes, false, if◌then◌else◌, inl, inr, leb, ltb, none, refl,
  some, true, ℕ, ◌&&◌, ◌<◌, ◌==◌, ◌||◌, ◌↔◌, ◌∙◌, ◌≡◌, ◌≢◌, ◌≤◌, ◌⊎◌,
}
use libreatrust.Json.{I64, Json, get, json_i64}
use libreatrust.Auth.{is_zero}
use libreatrust.Error.{
  AtrError, AtrResult, AtrResult-cases, err, error_code, network_failed_code, ok, unauthorized_code,
}
use libreatrust.Auth.Bodies.{
  check_code, code_keys, is_present, says_failure, validate_client_resource_response,
}

-- What a reply says whose body does not matter: a failure, with or without the right to ask.
abbrev pub IsSuccess : ℕ → Type 0
IsSuccess status = (200 ≤ status) × (status < 300)

-- The body of a reply does not say that the request failed.
abbrev pub SaysNoFailure : AtrResult Json → Type 0
SaysNoFailure (err e) = Unit
SaysNoFailure (ok payload) =
    (is_present (get (codes "data") payload) ≡ true)
    ⊎ ((code : I64) × (json_i64 payload code_keys ≡ some code) × (code.size ≡ 0))
    ⊎ ((json_i64 payload code_keys ≡ none) × (says_failure (get (codes "success") payload) ≡ false))

abbrev size_of : Option I64 → ℕ
size_of none = 0
size_of (some c) = c.size

check_code-ok_iff :
    (code : Option I64) (payload : Json)
    → (check_code code payload ≡ ok tt) ↔ (
        ((c : I64) × (code ≡ some c) × (c.size ≡ 0))
        ⊎ ((code ≡ none) × (says_failure (get (codes "success") payload) ≡ false)))
unfolding check_code
check_code-ok_iff none payload = elim (Bool-cases (says_failure (get (codes "success") payload))) [
  | inl e ↦ rw e (
    (λ h. absurd (cc h)),
    λ h. elim h [ inl (c, k, z) ↦ absurd (cc k) | inr (k, f) ↦ absurd (cc f) ],
  )
  | inr e ↦ rw e ((λ h. inr (refl, refl)), λ h. refl)
]
check_code-ok_iff (some c) payload = elim (Bool-cases (is_zero c)) [
  | inl e ↦
      let zero_code : c.size ≡ 0 = ground (arith, e) in
      rw e ((λ h. inl (c, refl, zero_code)), λ h. refl)
  | inr e ↦
      let other : c.size ≢ 0 = λ z. absurd (ground (arith, e, z)) in
      rw e (
        (λ h. absurd (cc h)),
        λ h. elim h [
          | inl (d, k, z) ↦ absurd (other (ap (λ o. size_of o) k ∙ z))
          | inr (k, f) ↦ absurd (cc k)
        ],
      )
]

-- The outcome of a body that was read.
read_body-ok_iff :
    (payload : Json)
    → ((if is_present (get (codes "data") payload)
          then ok tt
          else check_code (json_i64 payload code_keys) payload)
        ≡ ok tt)
      ↔ SaysNoFailure (ok payload)
read_body-ok_iff payload =
    let check = check_code-ok_iff (json_i64 payload code_keys) payload in
    elim (Bool-cases (is_present (get (codes "data") payload))) [
      | inl e ↦ rw e ((λ h. inl refl), λ h. refl)
      | inr e ↦ rw e (
        (λ h. elim (check.0 h) [ inl c ↦ inr (inl c) | inr n ↦ inr (inr n) ]),
        λ h. elim h [ inl f ↦ absurd (cc f) | inr r ↦ check.1 r ],
      )
    ]

-- The replies that `validate_client_resource_response` takes are those of a status from 200 to 299
-- whose body is no JSON, has `data`, holds the code zero, or holds no code and does not say that
-- `success` is false.
pub validate_client_resource_response-ok_iff :
    (from_slice : List ℕ → AtrResult Json) (status : ℕ) (body : List ℕ)
    → (validate_client_resource_response from_slice status body ≡ ok tt)
      ↔ (IsSuccess status × SaysNoFailure (from_slice body))
unfolding validate_client_resource_response
validate_client_resource_response-ok_iff from_slice status body =
    elim (Bool-cases (leb 200 status && ltb status 300)) [
      | inl e ↦
          let success : IsSuccess status = ground (arith, e) in
          elim (AtrResult-cases (from_slice body)) [
            | inl (payload, k) ↦
                let inner = read_body-ok_iff payload in
                rw e (rw k ((λ h. (success, inner.0 h)), λ h. inner.1 h.1))
            | inr (d, k) ↦ rw e (rw k ((λ h. (success, tt)), λ h. refl))
          ]
      | inr e ↦
          let refused : ¬ IsSuccess status = λ h. absurd (ground (arith, e, h)) in
          rw e (elim (Bool-cases (status == 401 || status == 403)) [
            | inl u ↦ rw u ((λ h. absurd (cc h)), λ h. absurd (refused h.0))
            | inr u ↦ rw u ((λ h. absurd (cc h)), λ h. absurd (refused h.0))
          ])
    ]

check_code-unauthorized :
    (code : Option I64) (payload : Json) (e : AtrError)
    → check_code code payload ≡ err e
    → error_code e ≡ unauthorized_code
unfolding check_code error_code
check_code-unauthorized none payload e h = ground (arith, h)
check_code-unauthorized (some c) payload e h = ground (arith, h)

-- A refused reply is reported as unauthorised, but for a status outside 200 to 299 other than 401
-- and 403, which is a failure of the network.
validate_client_resource_response-code :
    (from_slice : List ℕ → AtrResult Json) (status : ℕ) (body : List ℕ) (e : AtrError)
    → validate_client_resource_response from_slice status body ≡ err e
    → error_code e ≡ (
        if (leb 200 status && ltb status 300) || status == 401 || status == 403
        then unauthorized_code
        else network_failed_code)
unfolding validate_client_resource_response error_code
validate_client_resource_response-code from_slice status body e h =
    elim (AtrResult-cases (from_slice body)) [
      | inl (payload, k) ↦
          ground (arith, h, k, check_code-unauthorized (json_i64 payload code_keys) payload e)
      | inr (d, k) ↦ ground (arith, h, k)
    ]
