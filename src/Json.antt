-- ===== src/Json.antt =====
-- The values of `serde_json`, and the ways in which the code reads them: `Value::get`, `as_str`,
-- `as_bool` and `as_i64`, and `json_i64` and `json_str` of auth.rs.
use libreatrust.Base.{
  Bool, List, Option, Text, [], false, if◌then◌else◌, leb, ltb, none, or_else, some, text_eq, true,
  ℕ, ◌-◌, ◌==◌, ◌^◌, ◌∷◌,
}
use libreatrust.Decimal.{decimal, parse_digits, parse_unsigned}
use mathlib.Core.Option

-- An integer is its sign and its size; other numbers are kept as they were written.
mutual
  pub data Json : Type 0 where
    null : Json
    bool : Bool → Json
    nonneg : ℕ → Json
    negative : ℕ → Json
    float : Text → Json
    str : Text → Json
    array : Items → Json
    object : Fields → Json

  pub data Items : Type 0 where
    nil : Items
    cons : Json → Items → Items

  pub data Fields : Type 0 where
    end : Fields
    field : Text → Json → Fields → Fields

abbrev pub field_of : Text → Fields → Option Json
field_of key end = none
field_of key (field name value rest) = if text_eq name key then some value else field_of key rest

-- `Value::get` by a key: only an object has fields.
abbrev pub get : Text → Json → Option Json
get key (object fields) = field_of key fields
get key null = none
get key (bool b) = none
get key (nonneg n) = none
get key (negative n) = none
get key (float t) = none
get key (str t) = none
get key (array items) = none

abbrev pub as_str : Json → Option Text
as_str (str t) = some t
as_str null = none
as_str (bool b) = none
as_str (nonneg n) = none
as_str (negative n) = none
as_str (float t) = none
as_str (array items) = none
as_str (object fields) = none

abbrev pub as_bool : Json → Option Bool
as_bool (bool b) = some b
as_bool null = none
as_bool (str t) = none
as_bool (nonneg n) = none
as_bool (negative n) = none
as_bool (float t) = none
as_bool (array items) = none
as_bool (object fields) = none

-- An `i64` by its sign and its size.
pub record I64 : Type 0 where
  pub is_negative : Bool
  pub size : ℕ

abbrev pub i64 : Bool → ℕ → I64
i64 sign n = record { is_negative = sign; size = n }

-- `to_string`
abbrev pub print_i64 : I64 → Text
print_i64 n = if n.is_negative then b'-' ∷ decimal n.size else decimal n.size

abbrev pub as_i64 : Json → Option I64
as_i64 (nonneg n) = if ltb n (2 ^ 63) then some (i64 false n) else none
as_i64 (negative n) = if leb n (2 ^ 63) then some (i64 true n) else none
as_i64 null = none
as_i64 (bool b) = none
as_i64 (float t) = none
as_i64 (str t) = none
as_i64 (array items) = none
as_i64 (object fields) = none

-- `s.parse::<i64>()`
unfoldable pub parse_i64 : Text → Option I64
parse_i64 [] = none
parse_i64 (c ∷ []) = Option.map (i64 false) (parse_unsigned (2 ^ 63 - 1) (c ∷ []))
parse_i64 (c ∷ d ∷ s) =
    if c == b'-'
    then Option.map (i64 true) (parse_digits (2 ^ 63) 0 (d ∷ s))
    else Option.map (i64 false) (parse_unsigned (2 ^ 63 - 1) (c ∷ d ∷ s))

-- The number that a field holds, as a number or as a text.
unfoldable pub number_in : Json → Option I64
unfolding parse_i64
number_in value =
    or_else (as_i64 value) (elim (as_str value) [ none ↦ none | some t ↦ parse_i64 t ])

-- `json_i64`: the first of the keys at which there is a number.
unfoldable pub json_i64 : Json → List Text → Option I64
unfolding number_in
json_i64 payload [] = none
json_i64 payload (key ∷ keys) =
    or_else (elim (get key payload) [ none ↦ none | some value ↦ number_in value ])
      (json_i64 payload keys)

-- `json_str`
unfoldable pub json_str : Json → List Text → Option Text
json_str payload [] = none
json_str payload (key ∷ keys) =
    or_else (elim (get key payload) [ none ↦ none | some value ↦ as_str value ])
      (json_str payload keys)
