-- ===== src/Auth/Bodies.antt =====
-- auth.rs: what the reply to `clientResource` is checked for (`validate_client_resource_response`,
-- `short_response_body`).
pub mod Checks
pub mod Short
use libreatrust.Base.{
  Bool, List, Option, Text, [], codes, false, if◌then◌else◌, is_empty, leb, length, ltb, map, none,
  not, some, take, trim, true, ℕ, ◌&&◌, ◌++◌, ◌==◌, ◌||◌, ◌∷◌,
}
use libreatrust.Json.{I64, Json, as_bool, get, json_i64, json_str, print_i64}
use libreatrust.Auth.{is_zero}
use libreatrust.Error.{AtrResult, Message, about, err, network_failed, ok, unauthorized}
use libreatrust.Decimal.{decimal}
use libreatrust.Utf8.{Expect, at_start, next_byte}

-- `String::from_utf8_lossy`: each longest wrong sequence becomes one U+FFFD, and the byte that
-- ended it is read anew.
unfoldable pub lossy_from : Expect → List ℕ → Text
lossy_from e [] = if e.need == 0 then [] else 0xFFFD ∷ []
lossy_from e (b ∷ bytes) = elim (next_byte e b) [
  | some (c, e') ↦ c ++ lossy_from e' bytes
  | none ↦ elim (if e.need == 0 then none else next_byte at_start b) [
    | some (c, e') ↦ 0xFFFD ∷ (c ++ lossy_from e' bytes)
    | none ↦ (if e.need == 0 then [] else 0xFFFD ∷ []) ++ (0xFFFD ∷ lossy_from at_start bytes)
  ]
]

abbrev pub from_utf8_lossy : List ℕ → Text
from_utf8_lossy bytes = lossy_from at_start bytes

abbrev pub is_break : ℕ → Bool
is_break c = c == 13 || c == 10 || c == 9

abbrev pub spaced : Text → Text
spaced = map (λ c. if is_break c then 32 else c)

abbrev pub max_len : ℕ
max_len = 512

-- `short_response_body`
unfoldable pub short_response_body : List ℕ → Text
unfolding lossy_from trim
short_response_body body =
    let text = trim (spaced (from_utf8_lossy body)) in
    if is_empty text
    then codes "<empty body>"
    else if leb (length text) max_len
    then text
    else take max_len text ++ codes "..."

abbrev pub status_message : ℕ → Text → Message
status_message status detail =
    about "clientResource http status " (decimal status ++ (codes ": " ++ detail))

abbrev pub code_keys : List Text
code_keys = codes "code" ∷ codes "Code" ∷ codes "errCode" ∷ codes "errorCode" ∷ []

abbrev pub message_keys : List Text
message_keys =
    codes "message" ∷ codes "Message" ∷ codes "msg" ∷ codes "error" ∷ codes "errorMessage" ∷ []

abbrev pub is_present {ℓ} : {A : Type ℓ} → Option A → Bool
is_present none = false
is_present (some a) = true

abbrev pub says_failure : Option Json → Bool
says_failure none = false
says_failure (some value) = elim (as_bool value) [ none ↦ false | some b ↦ not b ]

-- What a body without `data` says, with the code that it holds.
unfoldable pub check_code : Option I64 → Json → AtrResult (Unit {0})
unfolding json_str
check_code code payload =
    let message : Text = elim (json_str payload message_keys) [
      | none ↦ codes "empty error message"
      | some m ↦ m
    ] in
    elim code [
      | some c ↦
          if is_zero c
          then ok tt
          else err (
              unauthorized
                (about "clientResource failed: code " (print_i64 c ++ (codes ": " ++ message))))
      | none ↦
          if says_failure (get (codes "success") payload)
          then err (unauthorized (about "clientResource failed: " message))
          else ok tt
    ]

-- `validate_client_resource_response`, where `from_slice` reads JSON.
unfoldable pub validate_client_resource_response :
    (List ℕ → AtrResult Json) → ℕ → List ℕ → AtrResult (Unit {0})
unfolding check_code json_i64
validate_client_resource_response from_slice status body =
    if not (leb 200 status && ltb status 300)
    then if status == 401 || status == 403
      then err (unauthorized (status_message status (short_response_body body)))
      else err (network_failed (status_message status (short_response_body body)))
    else elim (from_slice body) [
      | err e ↦ ok tt
      | ok payload ↦
          if is_present (get (codes "data") payload)
          then ok tt
          else check_code (json_i64 payload code_keys) payload
    ]
