-- ===== src/Auth/Http/Cookies.antt =====
-- auth.rs: reading a `Set-Cookie` header.
use libreatrust.Base.{
  List, Option, Text, [], arith, before_first, codes, contains_char, false, refl, some, split_once,
  trim, ℕ, ◌++◌, ◌||◌, ◌∙◌, ◌∷◌, ◌≡◌,
}
use libreatrust.Error.{ok}
use libreatrust.Auth.Http.{parse_set_cookie}

abbrev Lacks : ℕ → Text → Type 0
Lacks c s = contains_char c s ≡ false

-- The attributes of a cookie stand behind a semicolon.
abbrev pub IsAttributes : Text → Type 0
IsAttributes [] = Unit
IsAttributes (c ∷ s) = c ≡ b';'

before_first-Lacks :
    (s attributes : Text)
    → Lacks b';' s
    → IsAttributes attributes
    → before_first b';' (s ++ attributes) ≡ s
before_first-Lacks [] [] h a = refl
before_first-Lacks [] (c ∷ s) h a = ground arith
before_first-Lacks (c ∷ s) attributes h a =
    let ih = before_first-Lacks s attributes in ground (arith, ih)

split_once-Lacks :
    (name content : Text)
    → Lacks b'=' name
    → split_once b'=' (name ++ (b'=' ∷ content)) ≡ some (name, content)
split_once-Lacks [] content h = refl
split_once-Lacks (c ∷ name) content h = let ih = split_once-Lacks name content in ground (arith, ih)

contains_char-append :
    (c : ℕ) (s t : Text) → contains_char c (s ++ t) ≡ (contains_char c s || contains_char c t)
contains_char-append c [] t = refl
contains_char-append c (d ∷ s) t = ground (arith, contains_char-append c s t)

-- A header of a name, an equals sign and a content, and of attributes or none, is read as the
-- cookie of that name and content, without the white space around them, for the host that was
-- asked over https. The name has no equals sign and neither has a semicolon.
pub parse_set_cookie-pair :
    (header_text : List ℕ → Option Text) (value : List ℕ) (name content attributes host : Text)
    → header_text value ≡ some ((name ++ (b'=' ∷ content)) ++ attributes)
    → Lacks b'=' name
    → Lacks b';' name
    → Lacks b';' content
    → IsAttributes attributes
    → parse_set_cookie header_text value host
      ≡ ok (record { host = host; scheme = codes "https"; name = trim name; value = trim content })
unfolding parse_set_cookie
parse_set_cookie-pair header_text value name content attributes host e n1 n2 c a =
    let whole : Lacks b';' (name ++ (b'=' ∷ content)) =
      contains_char-append b';' name (b'=' ∷ content) ∙ ground arith in
    rw (e, parse_set_cookie)
      (rw (before_first-Lacks (name ++ (b'=' ∷ content)) attributes whole a)
        (rw (split_once-Lacks name content n1)))
