-- ===== src/Store/Relations/Parsed.antt =====
-- About crates/evalhub-store/src/relations.rs: targets that crates/evalhub-core/src/validate.rs let
-- through, read by the store.
use Prim.Native.String.{String, [], ◌∷◌}
use Prim.Native.Char.{code}
use evalhub.Base.{
  ℕ, ◌^◌, ◌<◌, ◌≡◌, refl, true, false, none, some, inl, inr, str_eq, arith, eq_iff, ==_iff,
  Bool-cases, Option-cases,
}
use evalhub.Base.Text.{all_chars, split_once, rsplit_once, strip_prefix}
use evalhub.Base.Decimal.{is_digit, digits_value}
use evalhub.Core.Ids.{
  slug_char, slug_start, is_slug, hub_target, parse_version, parse_relation_target,
}
use evalhub.Core.Ids
use evalhub.Core.Ids.Laws.{is_slug-has_char}
use evalhub.Store.Relations.{version, parse_seq, unless_bad, parse}

digits-no_plus : (s : String) → all_chars is_digit s ≡ true → strip_prefix "+" s ≡ none
unfolding all_chars strip_prefix
digits-no_plus [] h = refl
digits-no_plus (x ∷ s) h = ground (arith, ==_iff b'+' (code x))

slug-not_empty : (s : String) → is_slug s ≡ true → str_eq s "" ≡ false
unfolding is_slug
slug-not_empty s h = elim (Bool-cases (str_eq s "")) [
  | inl e ↦ absurd (let k = rw ((eq_iff s "").0 e) at h in ground arith)
  | inr e ↦ e
]

slash_not_slug : slug_char b'/' ≡ false
unfolding slug_char slug_start
slash_not_slug = refl

-- The parts of a text that validation reads as a version.
hub_target-parts :
    (a b s : String) (ns name : String) (n : ℕ)
    → hub_target a b s ≡ some (Ids.version ns name n)
    → n < 2 ^ 31
    → (parse_seq s ≡ some n) × (unless_bad a b n ≡ some (version ns name n))
unfolding hub_target parse_seq
hub_target-parts a b s ns name n h small =
    let slug_a : is_slug a ≡ true = ground arith in
    let slug_b : is_slug b ≡ true = ground arith in
    let given : str_eq s "" ≡ false = ground arith in
    let digits : all_chars is_digit s ≡ true = ground arith in
    let is_n : digits_value 0 s ≡ n = ground arith in
    let positive : 0 < n = ground arith in
    let is_a : a ≡ ns = ground arith in
    let is_b : b ≡ name = ground arith in
    (
      rw (digits-no_plus s digits, given, digits, is_n) (ground arith),
      rw
          (
            slug-not_empty a slug_a,
            slug-not_empty b slug_b,
            is_slug-has_char b'/' b slash_not_slug slug_b,
          )
          (rw (is_a, is_b) refl),
    )

parse_version-parse :
    (s ns name : String) (n : ℕ)
    → parse_version s ≡ some (Ids.version ns name n)
    → n < 2 ^ 31
    → (strip_prefix "external:" s ≡ none)
    → (strip_prefix "hf:" s ≡ none)
    → parse s ≡ some (version ns name n)
unfolding parse_version parse
parse_version-parse s ns name n h small e f = elim (Option-cases (rsplit_once b'@' s)) [
  | inl gone ↦ absurd (let k = rw gone at h in ground arith)
  | inr (halves, is) ↦ elim (Option-cases (split_once b'/' halves.0)) [
    | inl gone ↦ absurd (let k = rw (is, gone) at h in ground arith)
    | inr (id, at_slash) ↦
        let (seq, rest) =
          hub_target-parts id.0 id.1 halves.1 ns name n (let k = rw (is, at_slash) at h in k)
            small in
        rw (e, f, is, seq, at_slash) rest
  ]
]

-- What validation reads as a version whose number fits an `i32`, the store reads as that version.
pub parse-parse_relation_target :
    (s ns name : String) (n : ℕ)
    → parse_relation_target s ≡ some (Ids.version ns name n)
    → n < 2 ^ 31
    → parse s ≡ some (version ns name n)
unfolding parse_relation_target
parse-parse_relation_target s ns name n h small = elim (Option-cases (strip_prefix "external:" s)) [
  | inr (rest, e) ↦ absurd (let k = rw e at h in ground arith)
  | inl e ↦ elim (Option-cases (strip_prefix "hf:" s)) [
    | inr (rest, f) ↦ absurd (let k = rw (e, f) at h in ground arith)
    | inl f ↦ parse_version-parse s ns name n (let k = rw (e, f) at h in k) small e f
  ]
]
