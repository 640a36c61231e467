-- ===== src/Core/Report/Pointers.antt =====
-- About crates/evalhub-core/src/validate.rs: `escape_pointer` and its inverse.
use Prim.Native.Char.{Char, code}
use Prim.Native.String.{String, [], ◌∷◌}
use text.Mathlib.TextLemmas.{nil-append, cons-append, append_assoc}
use text.Mathlib.TextEquality.{Char-path}
use evalhub.Base.{
  ◌≡◌, refl, ap, sym, ℕ, ◌∙◌, false, ◌&&◌, arith, inl, inr, Bool-cases, ◌==◌, ==_iff, if◌then◌else◌,
}
use evalhub.Base.Text.{◌+++◌, replace, has_char}
use evalhub.Base.Text.Laws.{has_char-append}
use evalhub.Core.Report.{escape_pointer}

abbrev tilde : Char
tilde = "~"

abbrev slash : Char
slash = "/"

single-append : (c : Char) (b : String) → (c ∷ []) +++ b ≡ c ∷ b
single-append c b = cons-append c [] b ∙ ap (λ t. c ∷ t) (nil-append b)

-- How RFC 6901 reads a reference token: `~0` is `~`, `~1` is `/`.
unfoldable pub unescape_pointer : String → String
unescape_pointer [] = []
unescape_pointer (c ∷ []) = c ∷ []
unescape_pointer (c ∷ (d ∷ s)) =
    let longer = c ∷ unescape_pointer (d ∷ s) in
    if code c == b'~' && code d == b'0'
    then tilde ∷ unescape_pointer s
    else if code c == b'~' && code d == b'1'
    then slash ∷ unescape_pointer s
    else longer

unescape_plain :
    (c : Char) (s : String)
    → (code c == b'~') ≡ false
    → unescape_pointer (c ∷ s) ≡ c ∷ unescape_pointer s
unfolding unescape_pointer
unescape_plain c [] h = refl
unescape_plain c (d ∷ s) h = rw h

abbrev one_char : Char → String
one_char c = if code c == b'~' then "~0" else if code c == b'/' then "~1" else c ∷ []

replace-append : (c : ℕ) (r a b : String) → replace c r (a +++ b) ≡ replace c r a +++ replace c r b
unfolding replace
replace-append c r [] b = rw (nil-append, nil-append)
replace-append c r (x ∷ a) b = rw cons-append (elim (Bool-cases (code x == c)) [
  | inl hit ↦
      rw hit (rw (replace-append c r a b) (sym (append_assoc r (replace c r a) (replace c r b))))
  | inr miss ↦
      rw miss (rw (replace-append c r a b) (sym (cons-append x (replace c r a) (replace c r b))))
])

escape-cons : (c : Char) (s : String) → escape_pointer (c ∷ s) ≡ one_char c +++ escape_pointer s
unfolding escape_pointer replace
escape-cons c s = elim (Bool-cases (code c == b'~')) [
  | inl is_tilde ↦ rw is_tilde (replace-append b'/' "~1" "~0" (replace b'~' "~0" s))
  | inr plain ↦ elim (Bool-cases (code c == b'/')) [
    | inl is_slash ↦ rw (plain, is_slash)
    | inr other ↦ rw (plain, other) (sym (single-append c (escape_pointer s)))
  ]
]

double-append : (c d : Char) (b : String) → (c ∷ (d ∷ [])) +++ b ≡ c ∷ (d ∷ b)
double-append c d b = cons-append c (d ∷ []) b ∙ ap (λ t. c ∷ t) (single-append d b)

abbrev zero_digit : Char
zero_digit = "0"

abbrev one_digit : Char
one_digit = "1"

unescape_tilde : (e : String) → unescape_pointer ("~0" +++ e) ≡ tilde ∷ unescape_pointer e
unfolding unescape_pointer
unescape_tilde e = ap unescape_pointer (double-append tilde zero_digit e)

unescape_slash : (e : String) → unescape_pointer ("~1" +++ e) ≡ slash ∷ unescape_pointer e
unfolding unescape_pointer
unescape_slash e = ap unescape_pointer (double-append tilde one_digit e)

unescape-one_char :
    (c : Char) (s e : String)
    → (unescape_pointer e ≡ s) × (has_char b'/' e ≡ false)
    → (unescape_pointer (one_char c +++ e) ≡ c ∷ s) × (has_char b'/' (one_char c +++ e) ≡ false)
unfolding has_char
unescape-one_char c s e (back, clean) = elim (Bool-cases (code c == b'~')) [
  | inl is_tilde ↦
      let c_is : c ≡ tilde = Char-path c tilde ((==_iff _ _).0 is_tilde) in
      rw is_tilde (unescape_tilde e ∙ cc (back, c_is), has_char-append b'/' "~0" e ∙ clean)
  | inr plain ↦ elim (Bool-cases (code c == b'/')) [
    | inl is_slash ↦
        let c_is : c ≡ slash = Char-path c slash ((==_iff _ _).0 is_slash) in
        rw (plain, is_slash)
          (unescape_slash e ∙ cc (back, c_is), has_char-append b'/' "~1" e ∙ clean)
    | inr other ↦
        rw (plain, other)
          (rw single-append
            (unescape_plain c e plain ∙ ap (λ t. c ∷ t) back, ground (arith, clean)))
  ]
]

-- Reading an escaped key gives the key back, and the escaped key holds no slash: it is one
-- reference token of the pointer.
pub unescape-escape_pointer :
    (key : String)
    → (unescape_pointer (escape_pointer key) ≡ key) × (has_char b'/' (escape_pointer key) ≡ false)
unescape-escape_pointer [] = unfold escape_pointer unescape_pointer replace has_char in (refl, refl)
unescape-escape_pointer (c ∷ s) =
    rw escape-cons (unescape-one_char c s (escape_pointer s) (unescape-escape_pointer s))
