-- ===== src/Store/Sql/Path/Quoting.antt =====
-- About crates/evalhub-store/src/query_sql.rs: the pieces of a path's literal within the quotes of the
-- statement.
use Prim.Native.Char.{Char}
use evalhub.Base.{
  ℕ, zero, suc, code, String, true, false, ◌||◌, ◌≡◌, refl, sym, ap, ◌∙◌, some, List, [], ◌∷◌, inl,
  inr, arith, Bool-cases, ◌==◌, ==_iff, ltb, if◌then◌else◌,
}
use text.Mathlib.TextEquality.{Char-path}
use text.Mathlib.TextLemmas.{nil-append, cons-append, append_assoc}
use evalhub.Base.Text.{◌+++◌}
use evalhub.Store.Db.{Result, ok, err, StoreError}
use evalhub.Store.Sql.{◌>>=◌}
use evalhub.Store.Sql.Path.{escape_char, escape_segment, is_refused, array_items}
use evalhub.Store.Sql.Path.Reading.{inside}

-- A piece of a literal and the text that it stands for.
abbrev pub Passes : String → String → Type 0
Passes e x = (t y : String) → inside false t ≡ some y → inside false (e +++ t) ≡ some (x +++ y)

Passes-append : (d e x y : String) → Passes d x → Passes e y → Passes (d +++ e) (x +++ y)
Passes-append d e x y g h t z k =
    rw (append_assoc d e t, append_assoc x y z) (g (e +++ t) (y +++ z) (h t z k))

Passes-nil : Passes "" ""
Passes-nil t y h = rw (nil-append t, nil-append y) h

pub Passes-char :
    (c : Char) → (code c == b'\'') ≡ false → Passes (String.◌∷◌ c "") (String.◌∷◌ c "")
unfolding inside
Passes-char c h t y k =
    rw (cons-append c "" t, cons-append c "" y, nil-append t, nil-append y, h, k) refl

-- A character as it stands in the text of the array.
unfoldable pub array_char : Char → String
array_char c =
    if code c == b'"' || code c == b'\\' then "\\" +++ String.◌∷◌ c "" else String.◌∷◌ c ""

unfoldable pub array_segment : String → String
unfolding array_char
array_segment String.[] = ""
array_segment (String.◌∷◌ c s) = array_char c +++ array_segment s

Passes-quote : Passes "''" "'"
unfolding inside
Passes-quote t y h =
    let two : "''" +++ t ≡ String.◌∷◌ "'" (String.◌∷◌ "'" t) =
      cons-append "'" "'" t
      ∙ ap (λ s. String.◌∷◌ "'" s)
          (cons-append "'" "" t ∙ ap (λ s. String.◌∷◌ "'" s) (nil-append t)) in
    let one : "'" +++ y ≡ String.◌∷◌ "'" y =
      cons-append "'" "" y ∙ ap (λ s. String.◌∷◌ "'" s) (nil-append y) in
    rw (two, one) (rw h refl)

Passes-escape_char : (c : Char) → Passes (escape_char c) (array_char c)
unfolding escape_char array_char
Passes-escape_char c = elim (Bool-cases (code c == b'"' || code c == b'\\')) [
  | inl special ↦ rw special (
      Passes-append "\\" (String.◌∷◌ c "") "\\" (String.◌∷◌ c "") (Passes-char "\\" refl)
        (Passes-char c (ground arith)))
  | inr plain ↦ elim (Bool-cases (code c == b'\'')) [
    | inl quote ↦
        let is : c ≡ "'" = Char-path c "'" ((==_iff (code c) b'\'').0 quote) in
        rw (plain, quote) (rw is Passes-quote)
    | inr other ↦ rw (plain, other) (Passes-char c other)
  ]
]

Passes-escape : (s : String) → Passes (escape_segment s) (array_segment s)
unfolding escape_segment array_segment
Passes-escape String.[] = Passes-nil
Passes-escape (String.◌∷◌ c s) = Passes-append _ _ _ _ (Passes-escape_char c) (Passes-escape s)

unfoldable pub separator : ℕ → String
separator i = if ltb 0 i then "," else ""

-- The text of the array, from the element with the number `i`, without its braces.
unfoldable pub array_from : ℕ → List String → String
array_from i [] = ""
array_from i (s ∷ path) =
    separator i +++ "\"" +++ array_segment s +++ "\"" +++ array_from (suc i) path

Passes-separator : (i : ℕ) → Passes (separator i) (separator i)
unfolding separator
Passes-separator zero = Passes-nil
Passes-separator (suc i) =
    let some_before : ltb 0 (suc i) ≡ true = ground arith in rw some_before (Passes-char "," refl)

pub ok_inj : (a b : String) → ok a ≡ ok b → a ≡ b
ok_inj a b k = ground arith

Passes-ok :
    (r : Result String) (f : String → String) (x out : String)
    → ((more : String) → r ≡ ok more → Passes (f more) x)
    → (r >>= λ more. ok (f more)) ≡ ok out
    → Passes out x
unfolding ◌>>=◌
Passes-ok (ok more) f x out h k = rw (sym (ok_inj (f more) out k)) (h more refl)
Passes-ok (err e) f x out h k = absurd (ground arith)

pub Passes-items :
    (i : ℕ) (path : List String) (out : String)
    → array_items i path ≡ ok out
    → Passes out (array_from i path)
unfolding array_items array_from separator
Passes-items i [] out h = rw (sym (ok_inj "" out h)) Passes-nil
Passes-items i (s ∷ path) out h = elim (Bool-cases (is_refused s)) [
  | inl bad ↦ absurd (refused-ok (rw bad at h))
  | inr good ↦
      Passes-ok (array_items (suc i) path) _ _ out
        (λ more k. Passes-append _ _ _ _ (Passes-separator i) (
          Passes-append "\"" _ "\"" _ (Passes-char "\"" refl) (
            Passes-append _ _ _ _ (Passes-escape s) (
              Passes-append "\"" _ "\"" _ (Passes-char "\"" refl)
                (Passes-items (suc i) path more k)))))
        (rw good at h)
]
  where
    refused-ok : err StoreError.query_unsupported ≡ ok out → ⊥
    refused-ok k = absurd (ground arith)
