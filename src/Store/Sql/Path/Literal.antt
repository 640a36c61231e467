-- ===== src/Store/Sql/Path/Literal.antt =====
-- About crates/evalhub-store/src/query_sql.rs: the literal of a path, read as an array.
use Prim.Native.Char.{Char}
use evalhub.Base.{
  ℕ, suc, code, String, true, false, ◌||◌, ◌≡◌, refl, sym, ap, ◌∙◌, some, List, [], ◌∷◌, inl, inr,
  arith, Bool-cases, ◌==◌, ltb,
}
use text.Mathlib.TextLemmas.{nil-append, cons-append, append_assoc}
use evalhub.Base.Text.{◌+++◌}
use evalhub.Store.Db.{Result, ok, err}
use evalhub.Store.Sql.{◌>>=◌}
use evalhub.Store.Sql.Path.{array_items, array_literal}
use evalhub.Store.Sql.Path.Reading.{
  sql_text, element, characters, behind, cons_head, items, array_of,
}
use evalhub.Store.Sql.Path.Quoting.{
  Passes-char, Passes-items, ok_inj, array_char, array_segment, separator, array_from,
}

one-append : (c : Char) (s : String) → String.◌∷◌ c "" +++ s ≡ String.◌∷◌ c s
one-append c s = cons-append c "" s ∙ ap (λ t. String.◌∷◌ c t) (nil-append s)

characters-char :
    (c : Char) (s : String)
    → items characters (array_char c +++ s) ≡ cons_head c (items characters s)
unfolding items array_char
characters-char c s = elim (Bool-cases (code c == b'"' || code c == b'\\')) [
  | inl special ↦
      let read : ("\\" +++ String.◌∷◌ c "") +++ s ≡ String.◌∷◌ "\\" (String.◌∷◌ c s) =
        append_assoc "\\" (String.◌∷◌ c "") s
        ∙ (one-append "\\" (String.◌∷◌ c "" +++ s)
            ∙ ap (λ t. String.◌∷◌ "\\" t) (one-append c s)) in
      rw (special, read) refl
  | inr plain ↦
      let no_quote : (code c == b'"') ≡ false = ground arith in
      let no_backslash : (code c == b'\\') ≡ false = ground arith in
      rw (plain, one-append c s) (rw (no_quote, no_backslash) refl)
]

characters-segment :
    (s rest : String) (ys : List String)
    → items behind rest ≡ some ys
    → items characters (array_segment s +++ "\"" +++ rest) ≡ some (s ∷ ys)
unfolding array_segment items
characters-segment String.[] rest ys h =
    rw (nil-append ("\"" +++ rest), one-append "\"" rest) (rw h refl)
characters-segment (String.◌∷◌ c s) rest ys h =
    rw
      (
        append_assoc (array_char c) (array_segment s) ("\"" +++ rest),
        characters-char c (array_segment s +++ "\"" +++ rest),
        characters-segment s rest ys h,
      )
      refl

element-segment :
    (s rest : String) (ys : List String)
    → items behind rest ≡ some ys
    → items element ("\"" +++ array_segment s +++ "\"" +++ rest) ≡ some (s ∷ ys)
unfolding items
element-segment s rest ys h =
    rw (one-append "\"" (array_segment s +++ "\"" +++ rest)) (characters-segment s rest ys h)

-- what an element and what follows it becomes, with the closing brace
array_from-cons :
    (i : ℕ) (s : String) (path : List String)
    → array_from i (s ∷ path) +++ "}"
      ≡ separator i +++ "\"" +++ array_segment s +++ "\"" +++ array_from (suc i) path +++ "}"
unfolding array_from
array_from-cons i s path = simp (append_assoc)

behind-array_from :
    (i : ℕ) (path : List String) → items behind (array_from (suc i) path +++ "}") ≡ some path
unfolding items separator array_from
behind-array_from i [] = refl
behind-array_from i (s ∷ path) =
    let is_more : ltb 0 (suc i) ≡ true = ground arith in
    rw (array_from-cons (suc i) s path) (
      rw is_more
        (rw (one-append "," _) (element-segment s _ path (behind-array_from (suc i) path))))

array_of-array_from :
    (s : String) (path : List String)
    → array_of ("{" +++ array_from 0 (s ∷ path) +++ "}") ≡ some (s ∷ path)
unfolding array_of separator
array_of-array_from s path = rw (one-append "{" (array_from 0 (s ∷ path) +++ "}")) (
    rw (array_from-cons 0 s path) (
      rw (nil-append ("\"" +++ array_segment s +++ "\"" +++ array_from 1 path +++ "}"))
        (element-segment s _ path (behind-array_from 0 path))))

sql_text-items :
    (s : String) (path : List String) (r : Result String) (literal : String)
    → array_items 0 (s ∷ path) ≡ r
    → (r >>= λ out. ok ("'{" +++ out +++ "}'")) ≡ ok literal
    → sql_text literal ≡ some ("{" +++ array_from 0 (s ∷ path) +++ "}")
unfolding sql_text ◌>>=◌
sql_text-items s path (err e) literal k h = absurd (ground arith)
sql_text-items s path (ok out) literal k h =
    let pass = Passes-items 0 (s ∷ path) out k "}'" "}" refl in
    let whole = Passes-char "{" refl (out +++ "}'") (array_from 0 (s ∷ path) +++ "}") pass in
    rw (sym (ok_inj ("'{" +++ out +++ "}'") literal h), cons-append "'" "{" (out +++ "}'")) whole

-- A path whose literal is written is read back from it: the literal is one text of the statement, to
-- its end, and that text is an array of just the segments of the path.
pub array_of-array_literal :
    (path : List String) (literal : String)
    → array_literal path ≡ ok literal
    → (text : String) × ((sql_text literal ≡ some text) × (array_of text ≡ some path))
unfolding array_literal
array_of-array_literal [] literal h = absurd (ground arith)
array_of-array_literal (s ∷ path) literal h = (
  "{" +++ array_from 0 (s ∷ path) +++ "}",
  (sql_text-items s path _ literal refl h, array_of-array_from s path),
)
