-- ===== src/Query/Check/Reports.antt =====
-- About crates/evalhub-query/src/typecheck.rs: what a check says when it gives no node.
use evalhub.Base.{
  ℕ, ◌+◌, ◌⊎◌, String, ◌≡◌, ◌≢◌, refl, inl, inr, not, Option, none, some, List, [], ◌∷◌, ◌++◌,
  arith, Bool-cases, str_eq, if◌then◌else◌, zero, suc,
}
use evalhub.Base.Lists.{append-eq-nil, is_empty}
use evalhub.Base.Text.{◌+++◌, strip_prefix, split_once, has_char}
use evalhub.Base.Decimal.{decimal}
use evalhub.Json.{Value}
use evalhub.Schema.{ErrorEntry}
use evalhub.Query.Ir
use evalhub.Query.Ir.{
  ArrayColumn, ArrayTable, Column, ValueType, Cmp, fingerprint, generated, ext, body, run,
}
use evalhub.Query.Grammar
use evalhub.Query.Grammar.{
  ScalarOp, MatchTerm, Filter, and, or, compare, exists, any, no_filters, add_filter, Parsed, ok,
  err, lower, parse, parsed,
}
use evalhub.Query.Table.{
  Indexed, full, eq_exists_only, eq_exists_untyped, PathInfo, scalar, array, PathTable, resolve,
}
use evalhub.Query.Check.Terms.{
  Checked, array_column, unless_pushed, op_rule, value_rule, check_cmp, check_term, term_column,
  check_each, check_terms, both_some, lookup_or_report, reported,
}
use evalhub.Query.Check.Filters.{
  map_checked, then_checked, compare_at, exists_at, any_at, both_filters, check_at, check_all,
  finish, check,
}
use evalhub.Query.Check.Sorts.{
  indexed_sort, run_column_sort, metric_sort, column_sort, split_sort, after_results, check_sort,
  run_sort, check_run_sort,
}

abbrev pub IsReported {ℓ} : {A : Type ℓ} → Checked A → Type ℓ
IsReported {A} x = x.1 ≡ [] → (a : A) × (x.0 ≡ some a)

module _ {ℓ} {A : Type ℓ} where
  unless_pushed-IsReported :
      (a : A) (errors : List ErrorEntry) → IsReported (unless_pushed a errors)
  unless_pushed-IsReported a [] h = (a, refl)
  unless_pushed-IsReported a (e ∷ errors) h = absurd (ground arith)

  none-IsReported :
      (e : ErrorEntry) (errors : List ErrorEntry) → IsReported {A = A} (none, e ∷ errors)
  none-IsReported e errors h = absurd (ground arith)

  both_some-IsReported :
      (x : Checked A) (y : Checked (List A))
      → IsReported x
      → IsReported y
      → IsReported (both_some x.0 y.0, x.1 ++ y.1)
  both_some-IsReported (o, errors) (os, more) f g h =
      let (left, right) = append-eq-nil errors more h in
      let (a, is) = f left in let (rest, are) = g right in rw (is, are) (a ∷ rest, refl)

  module _ {κ} {B : Type κ} where
    map_checked-IsReported :
        (f : A → B) (x : Checked A) → IsReported x → IsReported (map_checked f x)
    map_checked-IsReported f (none, errors) r h = let (a, is) = r h in absurd (ground arith)
    map_checked-IsReported f (some a, errors) r h = (f a, refl)

    then_checked-IsReported :
        (f : A → Checked B) (x : Checked A)
        → IsReported x
        → ((a : A) → IsReported (f a))
        → IsReported (then_checked x f)
    then_checked-IsReported f (none, errors) r s h = let (a, is) = r h in absurd (ground arith)
    then_checked-IsReported f (some a, errors) r s h = s a (append-eq-nil errors (f a).1 h).1

check_cmp-IsReported :
    (column : Column) (ty : ValueType) (indexed : _) (op : ScalarOp) (v : Value) (p : String)
    → IsReported (check_cmp column ty indexed op v p)
unfolding check_cmp
check_cmp-IsReported column ty indexed op v p =
    unless_pushed-IsReported (record { column = column; op = _; value = v })
      (op_rule ty indexed op p ++ value_rule ty indexed op v p)

term-IsReported :
    (p : String) (m : MatchTerm) (o : Option (ArrayColumn × ValueType))
    → IsReported (term_column p m o)
term-IsReported p m none = λ h. absurd (ground arith)
term-IsReported p m (some (column, ty)) =
    check_cmp-IsReported (Column.array column) ty full m.op m.value p

each-IsReported :
    (side : ArrayTable) (p : String) (terms : List (String × MatchTerm))
    → IsReported (check_each side p terms)
unfolding check_each
each-IsReported side p [] = λ h. ([], refl)
each-IsReported side p ((key, m) ∷ terms) =
    both_some-IsReported (check_term side p (key, m)) (check_each side p terms)
      (term-IsReported (p +++ "/match/" +++ key) m (array_column side key))
      (each-IsReported side p terms)

terms-IsReported :
    (side : ArrayTable) (terms : List (String × MatchTerm)) (p : String)
    → IsReported (check_terms side terms p)
unfolding check_terms
terms-IsReported side [] p = λ h. absurd (ground arith)
terms-IsReported side (t ∷ terms) p = each-IsReported side p (t ∷ terms)

reported-IsReported : (p : String) (o : Option PathInfo) → IsReported (reported p o)
reported-IsReported p none h = absurd (ground arith)
reported-IsReported p (some info) h = (info, refl)

lookup-IsReported : (t : PathTable) (path p : String) → IsReported (lookup_or_report t path p)
unfolding lookup_or_report
lookup-IsReported t path p = reported-IsReported p (resolve t path)

compare_at-IsReported :
    (op : ScalarOp) (v : Value) (p : String) (info : PathInfo) → IsReported (compare_at op v p info)
compare_at-IsReported op v p (array side) = λ h. absurd (ground arith)
compare_at-IsReported op v p (scalar column ty indexed) =
    map_checked-IsReported Ir.Filter.cmp (check_cmp column ty indexed op v p)
      (check_cmp-IsReported column ty indexed op v p)

exists_at-IsReported : (p : String) (info : PathInfo) → IsReported (exists_at p info)
exists_at-IsReported p (array side) h = absurd (ground arith)
exists_at-IsReported p (scalar column ty indexed) h = (Ir.Filter.exists column, refl)

any_at-IsReported :
    (terms : List (String × MatchTerm)) (p : String) (info : PathInfo)
    → IsReported (any_at terms p info)
any_at-IsReported terms p (scalar column ty indexed) = λ h. absurd (ground arith)
any_at-IsReported terms p (array side) =
    map_checked-IsReported (Ir.Filter.any side) (check_terms side terms p)
      (terms-IsReported side terms p)

both_filters-IsReported :
    (x : Checked Ir.Filter) (y : Checked Ir.Filters)
    → IsReported x
    → IsReported y
    → IsReported (both_filters x.0 y.0, x.1 ++ y.1)
both_filters-IsReported (o, errors) (os, more) f g h =
    let (left, right) = append-eq-nil errors more h in
    let (a, is) = f left in let (rest, are) = g right in rw (is, are) (Ir.Filters.cons a rest, refl)

module _ (t : PathTable) where
  mutual
    unfolding check_at check_all

    pub at-IsReported : (f : Filter) (p : String) → IsReported (check_at f t p)
    at-IsReported (and fs) p =
        map_checked-IsReported Ir.Filter.and (check_all fs t (p +++ "/and") 0)
          (all-IsReported fs (p +++ "/and") 0)
    at-IsReported (or fs) p =
        map_checked-IsReported Ir.Filter.or (check_all fs t (p +++ "/or") 0)
          (all-IsReported fs (p +++ "/or") 0)
    at-IsReported (Grammar.Filter.not f) p =
        map_checked-IsReported Ir.Filter.not (check_at f t (p +++ "/not"))
          (at-IsReported f (p +++ "/not"))
    at-IsReported (compare path op v) p =
        then_checked-IsReported (compare_at op v p) (lookup_or_report t path p)
          (lookup-IsReported t path p) (compare_at-IsReported op v p)
    at-IsReported (exists path) p =
        then_checked-IsReported (exists_at p) (lookup_or_report t path p)
          (lookup-IsReported t path p) (exists_at-IsReported p)
    at-IsReported (any path terms) p =
        then_checked-IsReported (any_at terms p) (lookup_or_report t path p)
          (lookup-IsReported t path p) (any_at-IsReported terms p)

    all-IsReported : (fs : Grammar.Filters) (p : String) (i : ℕ) → IsReported (check_all fs t p i)
    all-IsReported no_filters p i = λ h. (Ir.Filters.nil, refl)
    all-IsReported (add_filter f fs) p i =
        both_filters-IsReported (check_at f t (p +++ "/" +++ decimal i)) (check_all fs t p (i + 1))
          (at-IsReported f (p +++ "/" +++ decimal i)) (all-IsReported fs p (i + 1))

  finish-reports : (x : Checked Ir.Filter) → IsReported x → finish x ≢ err []
  finish-reports (none, errors) r h =
      let is : errors ≡ [] = ground arith in let (a, e) = r is in absurd (ground arith)
  finish-reports (some g, []) r h = absurd (ground arith)
  finish-reports (some g, e ∷ errors) r h = absurd (ground arith)

  pub check-reports : (f : Filter) → check f t ≢ err []
  unfolding check
  check-reports f = finish-reports (check_at f t "/where") (at-IsReported f "/where")

  metric_sort-IsReported : (p metric tail : String) → IsReported (metric_sort p metric tail)
  metric_sort-IsReported p metric tail = elim (Bool-cases (not (str_eq tail ".value"))) [
    | inl e ↦ rw e (λ h. absurd (ground arith))
    | inr e ↦ rw e (elim (Bool-cases (not (has_char b'/' metric))) [
      | inl k ↦ rw k (λ h. absurd (ground arith))
      | inr k ↦ rw k (λ h. (Ir.SortKey.metric metric, refl))
    ])
  ]

  indexed_sort-IsReported :
      (p : String) (column : Column) (indexed : Indexed)
      → IsReported (indexed_sort p column indexed)
  indexed_sort-IsReported p column full h = (Ir.SortKey.column column, refl)
  indexed_sort-IsReported p column eq_exists_only h = absurd (ground arith)
  indexed_sort-IsReported p column eq_exists_untyped h = absurd (ground arith)

  column_sort-IsReported : (p : String) (o : Option PathInfo) → IsReported (column_sort p o)
  column_sort-IsReported p (some (scalar column ty indexed)) =
      indexed_sort-IsReported p column indexed
  column_sort-IsReported p (some (array side)) = λ h. absurd (ground arith)
  column_sort-IsReported p none = λ h. absurd (ground arith)

  split_sort-IsReported :
      (path p : String) (o : Option (String × String)) → IsReported (split_sort t path p o)
  split_sort-IsReported path p (some (metric, tail)) = metric_sort-IsReported p metric tail
  split_sort-IsReported path p none = column_sort-IsReported p (resolve t path)

  after_results-IsReported :
      (path p : String) (o : Option String) → IsReported (after_results t path p o)
  after_results-IsReported path p (some rest) = split_sort-IsReported path p (split_once b']' rest)
  after_results-IsReported path p none = column_sort-IsReported p (resolve t path)

  pub check_sort-IsReported : (path p : String) → IsReported (check_sort t path p)
  unfolding check_sort
  check_sort-IsReported path p = elim (Bool-cases (str_eq path "created_at")) [
    | inl e ↦ rw e (λ h. (Ir.SortKey.created_at, refl))
    | inr e ↦ rw e (after_results-IsReported path p (strip_prefix "results[" path))
  ]

  run_column_sort-IsReported :
      (p : String) (column : Column) (indexed : Indexed)
      → IsReported (run_column_sort p column indexed)
  run_column_sort-IsReported p (run c) indexed = λ h. (Ir.SortKey.run c, refl)
  run_column_sort-IsReported p (generated c) indexed =
      indexed_sort-IsReported p (generated c) indexed
  run_column_sort-IsReported p (Column.fingerprint c) indexed =
      indexed_sort-IsReported p (Column.fingerprint c) indexed
  run_column_sort-IsReported p (ext path ty) indexed =
      indexed_sort-IsReported p (ext path ty) indexed
  run_column_sort-IsReported p (body path) indexed = indexed_sort-IsReported p (body path) indexed
  run_column_sort-IsReported p (Column.array c) indexed =
      indexed_sort-IsReported p (Column.array c) indexed

  run_sort-IsReported : (p : String) (o : Option PathInfo) → IsReported (run_sort p o)
  run_sort-IsReported p (some (scalar column ty indexed)) =
      run_column_sort-IsReported p column indexed
  run_sort-IsReported p (some (array side)) = λ h. absurd (ground arith)
  run_sort-IsReported p none = λ h. absurd (ground arith)

  pub check_run_sort-IsReported : (path p : String) → IsReported (check_run_sort t path p)
  unfolding check_run_sort
  check_run_sort-IsReported path p = run_sort-IsReported p (resolve t path)

-- The builder says at least one thing when it refuses.
abbrev pub Speaks : (Value → Filter ⊎ ℕ) → Type 0
Speaks build = (v : Value) → build v ≢ inr 0

pub parse-reports :
    (build : Value → Filter ⊎ ℕ) → Speaks build → (v : Value) → parse build v ≢ err []
unfolding parse
parse-reports build speaks v = after (lower v "/where").0 (lower v "/where").1
  where
    of_build : (x : Filter ⊎ ℕ) → x ≢ inr 0 → parsed x ≢ err []
    of_build (inl f) s h = absurd (ground arith)
    of_build (inr zero) s h = s refl
    of_build (inr (suc n)) s h = absurd (ground arith)

    after :
        (tagged : Value) (errors : List ErrorEntry)
        → (if is_empty errors then parsed (build tagged) else err errors) ≢ err []
    after tagged [] = of_build (build tagged) (speaks tagged)
    after tagged (e ∷ errors) = λ h. absurd (ground arith)
