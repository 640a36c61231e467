-- ===== src/Core/Ids/Laws.antt =====
-- About crates/evalhub-core/src/validate.rs: the ids as texts.
use Prim.Native.Char.{Char, code}
use Prim.Native.String.{String, [], ◌∷◌}
use text.Mathlib.TextLemmas.{nil-append, cons-append, append_assoc}
use evalhub.Base.{
  ℕ, ◌<◌, ◌^◌, ◌≡◌, refl, sym, ap, ◌∙◌, ◌≢◌, ◌↔◌, inl, inr, true, false, none, some, arith,
  Option-cases, eq_iff,
}
use evalhub.Base.Text.{◌+++◌, has_char, all_chars, split_once, rsplit_once, strip_prefix}
use evalhub.Base.Text.Laws.{
  split_once-append, split_once_sound, rsplit_once-append, strip_prefix-append, strip_prefix-none,
  has_char_of_all, has_char-append,
}
use evalhub.Base.Decimal.{decimal, is_digit}
use evalhub.Base.Decimal.Laws.{digits_value-decimal, decimal-all, decimal-ne-empty}
use evalhub.Core.Ids.{
  RelationTarget, version, external, hf, slug_start, slug_char, is_slug, is_valid_id, hub_target,
  parse_version, non_empty, after_external, parse_relation_target,
}

slug_start-char : (c : ℕ) → slug_start c ≡ true → slug_char c ≡ true
unfolding slug_char slug_start
slug_start-char c h = ground arith

is_slug-all : (s : String) → is_slug s ≡ true → all_chars slug_char s ≡ true
unfolding is_slug all_chars
is_slug-all [] h = cc
is_slug-all (c ∷ s) h = ground (arith, slug_start-char (code c))

-- A slug holds none of the separators.
pub is_slug-has_char :
    (c : ℕ) (s : String) → slug_char c ≡ false → is_slug s ≡ true → has_char c s ≡ false
is_slug-has_char c s f h = has_char_of_all slug_char c s f (is_slug-all s h)

abbrev slash : Char
slash = "/"

abbrev h_letter : Char
h_letter = "h"

abbrev at_sign : Char
at_sign = "@"

slash_not_slug : slug_char b'/' ≡ false
unfolding slug_char slug_start
slash_not_slug = refl

at_not_slug : slug_char b'@' ≡ false
unfolding slug_char slug_start
at_not_slug = refl

colon_not_slug : slug_char b':' ≡ false
unfolding slug_char slug_start
colon_not_slug = refl

single-append : (c : Char) (b : String) → (c ∷ []) +++ b ≡ c ∷ b
single-append c b = cons-append c [] b ∙ ap (λ t. c ∷ t) (nil-append b)

join_slash : (a b : String) → a +++ "/" +++ b ≡ a +++ (slash ∷ b)
join_slash a b = ap (λ t. a +++ t) (single-append slash b)

join_at : (a b : String) → a +++ "@" +++ b ≡ a +++ (at_sign ∷ b)
join_at a b = ap (λ t. a +++ t) (single-append at_sign b)

is_valid_id_of_parts :
    (ns name : String)
    → is_slug ns ≡ true
    → is_slug name ≡ true
    → is_valid_id (ns +++ "/" +++ name) ≡ true
unfolding is_valid_id
is_valid_id_of_parts ns name p q =
    rw (join_slash, split_once-append slash ns name (is_slug-has_char b'/' ns slash_not_slug p))
      (ground arith)

is_valid_id_parts :
    (s : String)
    → is_valid_id s ≡ true
    → (ns : String) × (name : String) × (s ≡ ns +++ "/" +++ name)
      × (is_slug ns ≡ true)
      × (is_slug name ≡ true)
unfolding is_valid_id
is_valid_id_parts s h = elim (Option-cases (split_once b'/' s)) [
  | inl missed ↦ absurd (ground arith)
  | inr ((ns, name), found) ↦ (
    ns,
    name,
    (split_once_sound slash s ns name found).0 ∙ sym (join_slash ns name),
    ground arith,
    ground arith,
  )
]

-- An id is valid exactly when it is two slugs joined by a slash.
pub is_valid_id_iff :
    (s : String)
    → (is_valid_id s ≡ true) ↔ (
        (ns : String) × (name : String) × (s ≡ ns +++ "/" +++ name)
        × (is_slug ns ≡ true)
        × (is_slug name ≡ true))
is_valid_id_iff s =
    (is_valid_id_parts s, λ (ns, name, e, p, q). rw e (is_valid_id_of_parts ns name p q))

-- How a target is written.
abbrev pub to_text : RelationTarget → String
to_text (version ns name seq) = ns +++ "/" +++ name +++ "@" +++ decimal seq
to_text (external rest) = "external:" +++ rest
to_text (hf rest) = "hf:" +++ rest

-- The targets that a record may name: slugs and a sequence number from 1 that fits a `u32`, or
-- some text behind the prefix.
abbrev pub IsTarget : RelationTarget → Type 0
IsTarget (version ns name seq) =
    (is_slug ns ≡ true) × (is_slug name ≡ true) × (seq ≢ 0) × (seq < 2 ^ 32)
IsTarget (external rest) = rest ≢ ""
IsTarget (hf rest) = rest ≢ ""

hub_target-decimal :
    (ns name : String) (seq : ℕ)
    → IsTarget (version ns name seq)
    → hub_target ns name (decimal seq) ≡ some (version ns name seq)
unfolding hub_target
hub_target-decimal ns name seq (p, q, pos, fits) = ground (
  arith,
  decimal-all seq,
  decimal-ne-empty seq pos,
  digits_value-decimal seq,
  eq_iff (decimal seq) "",
)

-- What the target's text holds is neither `:` nor, before the sequence number, `@`.
version_text_colon :
    (ns name : String) (seq : ℕ)
    → is_slug ns ≡ true
    → is_slug name ≡ true
    → has_char b':' (to_text (version ns name seq)) ≡ false
unfolding has_char
version_text_colon ns name seq p q =
    let digits = has_char_of_all is_digit b':' (decimal seq) refl (decimal-all seq) in
    rw (join_at, join_slash)
      (simp has_char-append (
        ground (
          arith,
          digits,
          is_slug-has_char b':' ns colon_not_slug p,
          is_slug-has_char b':' name colon_not_slug q,
        )))

regroup : (a b c d : String) → a +++ b +++ c +++ d ≡ (a +++ b +++ c) +++ d
regroup a b c d = sym (append_assoc a (b +++ c) d ∙ ap (λ t. a +++ t) (append_assoc b c d))

parse_version-to_text :
    (ns name : String) (seq : ℕ)
    → IsTarget (version ns name seq)
    → parse_version (to_text (version ns name seq)) ≡ some (version ns name seq)
unfolding parse_version
parse_version-to_text ns name seq t =
    let digits = has_char_of_all is_digit b'@' (decimal seq) refl (decimal-all seq) in
    let whole =
      regroup ns "/" name ("@" +++ decimal seq) ∙ join_at (ns +++ "/" +++ name) (decimal seq) in
    let halves =
      ap (rsplit_once b'@') whole
      ∙ rsplit_once-append at_sign (ns +++ "/" +++ name) (decimal seq) digits in
    let id =
      ap (split_once b'/') (join_slash ns name)
      ∙ split_once-append slash ns name (is_slug-has_char b'/' ns slash_not_slug t.0) in
    rw halves (rw id (hub_target-decimal ns name seq t))

hf_not_external : (rest : String) → strip_prefix "external:" ("hf:" +++ rest) ≡ none
unfolding strip_prefix
hf_not_external rest = ap (strip_prefix "external:") (cons-append h_letter "f:" rest)

-- A target that a record may name, written as text, is read back.
pub parse_relation_target-to_text :
    (t : RelationTarget) → IsTarget t → parse_relation_target (to_text t) ≡ some t
unfolding parse_relation_target has_char
parse_relation_target-to_text (version ns name seq) t =
    let colon = version_text_colon ns name seq t.0 t.1 in
    rw (strip_prefix-none b':' "external:" (to_text (version ns name seq)) refl colon) (
      rw (strip_prefix-none b':' "hf:" (to_text (version ns name seq)) refl colon)
        (parse_version-to_text ns name seq t))
parse_relation_target-to_text (external rest) t =
    rw strip_prefix-append (ground (arith, eq_iff rest ""))
parse_relation_target-to_text (hf rest) t =
    rw (hf_not_external rest, after_external)
      (rw strip_prefix-append (ground (arith, eq_iff rest "")))

hub_target-IsTarget :
    (ns name seq : String) (t : RelationTarget) → hub_target ns name seq ≡ some t → IsTarget t
unfolding hub_target
hub_target-IsTarget ns name seq (version a b n) h = ground arith
hub_target-IsTarget ns name seq (external r) h = absurd (ground arith)
hub_target-IsTarget ns name seq (hf r) h = absurd (ground arith)

parse_version-IsTarget : (s : String) (t : RelationTarget) → parse_version s ≡ some t → IsTarget t
unfolding parse_version
parse_version-IsTarget s t h = elim (Option-cases (rsplit_once b'@' s)) [
  | inl missed ↦ absurd (ground arith)
  | inr ((id, seq), found) ↦ elim (Option-cases (split_once b'/' id)) [
    | inl missed ↦ absurd (ground arith)
    | inr ((ns, name), parts) ↦ hub_target-IsTarget ns name seq t (ground arith)
  ]
]

hf-IsTarget : (rest : String) (t : RelationTarget) → non_empty hf rest ≡ some t → IsTarget t
hf-IsTarget rest (version a b n) h = absurd (ground arith)
hf-IsTarget rest (external r) h = absurd (ground arith)
hf-IsTarget rest (hf r) h = ground (arith, eq_iff rest "")

external-IsTarget :
    (rest : String) (t : RelationTarget) → non_empty external rest ≡ some t → IsTarget t
external-IsTarget rest (version a b n) h = absurd (ground arith)
external-IsTarget rest (external r) h = ground (arith, eq_iff rest "")
external-IsTarget rest (hf r) h = absurd (ground arith)

-- Whatever text is read as a target, the target is one that a record may name: never a sequence
-- number of 0 or past a `u32`, never a part that is no slug, never an empty reference.
pub parse_relation_target-IsTarget :
    (s : String) (t : RelationTarget) → parse_relation_target s ≡ some t → IsTarget t
unfolding parse_relation_target
parse_relation_target-IsTarget s t h = elim (Option-cases (strip_prefix "external:" s)) [
  | inl other ↦ elim (Option-cases (strip_prefix "hf:" s)) [
    | inl neither ↦ parse_version-IsTarget s t (ground (arith, neither, other))
    | inr (rest, found) ↦ hf-IsTarget rest t (ground (arith, found, other))
  ]
  | inr (rest, found) ↦ external-IsTarget rest t (ground (arith, found))
]
