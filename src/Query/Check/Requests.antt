-- ===== src/Query/Check/Requests.antt =====
-- About crates/evalhub-query/src/typecheck.rs: `compile` and `compile_runs` as a whole.
use mathlib.Core.Path.{subst}
use evalhub.Base.{
  ℕ, ◌+◌, ◌⊎◌, String, ◌≡◌, ◌↔◌, refl, ap, ◌∙◌, Option, none, some, List, [], ◌∷◌, ◌++◌, arith,
  ==_iff,
}
use evalhub.Base.Lists.{append-eq-nil, length}
use evalhub.Base.Text.{◌+++◌}
use evalhub.Base.Decimal.{decimal}
use evalhub.Json.{Value}
use evalhub.Schema.{ErrorEntry, RecordKind}
use evalhub.Query.Ir
use evalhub.Query.Ir.{Cursor, RunCursor, Query, RunQuery, SortKey, Sort}
use evalhub.Query.Grammar
use evalhub.Query.Grammar.{Parsed, ok, err, parse}
use evalhub.Query.Table.{PathTable, cards}
use evalhub.Query.Check.{
  record_type_of, version_or_latest, SortRequest, QueryRequest, kept, then_check, parse_clause,
  check_sorts, cursor_rule, cursor_keys, run_cursor_keys, unless_errors, compile_filter, compile,
  compile_runs,
}
use evalhub.Query.Check.Terms.{Checked}
use evalhub.Query.Check.Filters.{check}
use evalhub.Query.Check.Sorts.{check_sort, check_run_sort}
use evalhub.Query.Check.Reports.{
  IsReported, Speaks, parse-reports, check-reports, check_sort-IsReported,
  check_run_sort-IsReported,
}
use evalhub.Query.Check.Typing.{Means}
use evalhub.Query.Check.Sound.Steps.{clean_of}
use evalhub.Query.Check.Sound.Filters.{check_iff}

-- Each requested key checks to the key at its place, in its direction.
pub data Keys (check_one : String → String → Checked SortKey)
    : ℕ → List SortRequest → List Sort → Type 0 where
  no_keys : {i : ℕ} → Keys check_one i [] []
  one_key :
      {i : ℕ} {r : SortRequest} {key : SortKey} {rest : List SortRequest} {sort : List Sort}
      → check_one r.path ("/sort/" +++ decimal i) ≡ (some key, [])
      → Keys check_one (i + 1) rest sort
      → Keys check_one i (r ∷ rest) (record { key = key; dir = r.dir } ∷ sort)

-- The filter that a request's clause means, if it has one.
abbrev pub FilterOf :
    (Value → Grammar.Filter ⊎ ℕ) → PathTable → Option Value → Option Ir.Filter → Type 0
FilterOf build t none o = o ≡ none
FilterOf build t (some v) o =
    (ast : Grammar.Filter) × ((g : Ir.Filter) × ((parse build v ≡ ok ast)
        × (Means t ast g × (o ≡ some g))))

-- A cursor carries one value for each sort key.
abbrev pub CursorFits : Option (List Value) → List Sort → Type 0
CursorFits none sort = Unit
CursorFits (some keys) sort = length keys ≡ length sort

cursor_rule_iff :
    (o : Option (List Value)) (sort : List Sort) → (cursor_rule o sort ≡ []) ↔ CursorFits o sort
cursor_rule_iff none sort = (λ e. tt, λ e. refl)
cursor_rule_iff (some keys) sort = ground (arith, ==_iff (length keys) (length sort))

module _ (check_one : String → String → Checked SortKey) where
  check_sorts_sound :
      ((path p : String) → IsReported (check_one path p))
      → (i : ℕ) (keys : List SortRequest) → (check_sorts check_one i keys).1 ≡ []
      → Keys check_one i keys (check_sorts check_one i keys).0
  unfolding check_sorts
  check_sorts_sound reports i [] h = no_keys
  check_sorts_sound reports i (r ∷ rest) h =
      let this = check_one r.path ("/sort/" +++ decimal i) in
      let (left, right) = append-eq-nil this.1 (check_sorts check_one (i + 1) rest).1 h in
      let (key, is) = reports r.path ("/sort/" +++ decimal i) left in
      rw is (one_key (clean_of this key is left) (check_sorts_sound reports (i + 1) rest right))

  check_sorts_complete :
      {i : ℕ} {keys : List SortRequest} {sort : List Sort}
      → Keys check_one i keys sort
      → check_sorts check_one i keys ≡ (sort, [])
  unfolding check_sorts
  check_sorts_complete no_keys = refl
  check_sorts_complete (one_key found more) = rw (found, check_sorts_complete more) refl

module _ (build : Value → Grammar.Filter ⊎ ℕ) where
  clause_sound :
      Speaks build
      → (t : PathTable) (o : Option Value) → (parse_clause (parse build) t o).1 ≡ []
      → FilterOf build t o (parse_clause (parse build) t o).0
  clause_sound speaks t none h = refl
  clause_sound speaks t (some v) h = by_parse (parse build v) refl h
    where
      by_check :
          (ast : Grammar.Filter) (x : Parsed Ir.Filter)
          → parse build v ≡ ok ast
          → check ast t ≡ x
          → (kept x).1 ≡ []
          → FilterOf build t (some v) (kept x).0
      by_check ast (ok g) is at h = (ast, (g, (is, ((check_iff t ast g).0 at, refl))))
      by_check ast (err errors) is at h = absurd (check-reports t ast (at ∙ ap err h))

      by_parse :
          (x : Parsed Grammar.Filter)
          → parse build v ≡ x
          → (then_check t x).1 ≡ []
          → FilterOf build t (some v) (then_check t x).0
      by_parse (ok ast) is h = by_check ast (check ast t) is refl h
      by_parse (err errors) is h = absurd (parse-reports build speaks v (is ∙ ap err h))

  clause_complete :
      (t : PathTable) (o : Option Value) (f : Option Ir.Filter)
      → FilterOf build t o f
      → parse_clause (parse build) t o ≡ (f, [])
  clause_complete t none f h = rw h refl
  clause_complete t (some v) f (ast, (g, (is, (m, same)))) =
      rw (is, (check_iff t ast g).1 m, same) refl

abbrev pub query_of :
    QueryRequest → RecordKind → ℕ → Option Cursor → Option Ir.Filter → List Sort → Query
query_of request kind limit cursor filter sort = record {
  record_type = record_type_of kind;
  filter = filter;
  sort = sort;
  limit = limit;
  cursor = cursor;
  expand = request.expand;
  version = version_or_latest request.version;
}

abbrev pub run_query_of : PathTable → ℕ → Option RunCursor → Option Ir.Filter → List Sort → RunQuery
run_query_of t limit cursor filter sort = record {
  cards = cards t;
  filter = filter;
  sort = sort;
  limit = limit;
  cursor = cursor;
}

unless_errors-ok {ℓ} :
    {A : Type ℓ} (errors : List ErrorEntry) (a b : A)
    → unless_errors errors a ≡ ok b
    → (errors ≡ []) × (a ≡ b)
unless_errors-ok [] a b h = let is : a ≡ b = ground arith in (refl, is)
unless_errors-ok (e ∷ errors) a b h = absurd (ground arith)

-- A filter and a list of keys that a request gives, with a cursor of as many values as keys.
abbrev pub Given :
    (Value → Grammar.Filter ⊎ ℕ)
    → (String → String → Checked SortKey)
    → QueryRequest
    → PathTable
    → Option (List Value)
    → Option Ir.Filter
    → List Sort
    → Type 0
Given build check_one request t values filter sort =
    FilterOf build t request.where_clause filter
    × (Keys check_one 0 request.sort sort × CursorFits values sort)

module _ (build : Value → Grammar.Filter ⊎ ℕ) (speaks : Speaks build) where
  parts_sound :
      (check_one : String → String → Checked SortKey)
      → ((path p : String) → IsReported (check_one path p))
      → (request : QueryRequest) (t : PathTable) (values : Option (List Value))
      → (compile_filter build request t).1
          ++ ((check_sorts check_one 0 request.sort).1
              ++ cursor_rule values (check_sorts check_one 0 request.sort).0)
        ≡ []
      → Given build check_one request t values
          (compile_filter build request t).0
          (check_sorts check_one 0 request.sort).0
  unfolding compile_filter
  parts_sound check_one reports request t values h =
      let filter = parse_clause (parse build) t request.where_clause in
      let keys = check_sorts check_one 0 request.sort in
      let (found, rest) = append-eq-nil filter.1 (keys.1 ++ cursor_rule values keys.0) h in
      let (sorted, fits) = append-eq-nil keys.1 (cursor_rule values keys.0) rest in
      (
        clause_sound build speaks t request.where_clause found,
        (
          check_sorts_sound check_one reports 0 request.sort sorted,
          (cursor_rule_iff values keys.0).0 fits,
        ),
      )

  parts_complete :
      (check_one : String → String → Checked SortKey) (request : QueryRequest) (t : PathTable)
      (values : Option (List Value)) (filter : Option Ir.Filter) (sort : List Sort)
      → Given build check_one request t values filter sort
      → (compile_filter build request t ≡ (filter, []))
        × ((check_sorts check_one 0 request.sort ≡ (sort, [])) × (cursor_rule values sort ≡ []))
  unfolding compile_filter
  parts_complete check_one request t values filter sort (found, (keys, fits)) = (
    clause_complete build t request.where_clause filter found,
    (check_sorts_complete check_one keys, (cursor_rule_iff values sort).1 fits),
  )

  -- What a compiled query is, and a compiled run query.
  abbrev pub IsCompiled : QueryRequest → RecordKind → PathTable → ℕ → Option Cursor → Query → Type 0
  IsCompiled request kind t limit cursor q =
      Given build (check_sort t) request t (cursor_keys cursor) q.filter q.sort
      × (query_of request kind limit cursor q.filter q.sort ≡ q)

  abbrev pub IsRunCompiled : QueryRequest → PathTable → ℕ → Option RunCursor → RunQuery → Type 0
  IsRunCompiled request t limit cursor q =
      Given build (check_run_sort t) request t (run_cursor_keys cursor) q.filter q.sort
      × (run_query_of t limit cursor q.filter q.sort ≡ q)

  -- A request compiles to a query exactly when its clause parses and means the query's filter (or
  -- there is neither), each sort key checks to the query's at its place, the cursor if there is one
  -- has as many values as keys, and the rest of the query is the request's. It is assumed that the
  -- builder gives a diagnostic when it refuses.
  pub compile_iff :
      (request : QueryRequest) (kind : RecordKind) (t : PathTable) (limit : ℕ)
      (cursor : Option Cursor) (q : Query)
      → (compile build request kind t limit cursor ≡ ok q)
        ↔ IsCompiled request kind t limit cursor q
  unfolding compile
  compile_iff request kind t limit cursor q =
      let f = compile_filter build request t in
      let keys = check_sorts (check_sort t) 0 request.sort in
      (
        λ h.
            let (silent, is) =
              unless_errors-ok (f.1 ++ (keys.1 ++ cursor_rule (cursor_keys cursor) keys.0))
                (query_of request kind limit cursor f.0 keys.0) q h in
            subst (IsCompiled request kind t limit cursor) is (
              parts_sound (check_sort t) (check_sort-IsReported t) request t (cursor_keys cursor)
                  silent,
              refl,
            ),
        λ h.
            let silent =
              parts_complete (check_sort t) request t (cursor_keys cursor) q.filter q.sort h.0 in
            rw (silent.0, silent.1.0, silent.1.1) (ap ok h.1),
      )

  -- A request on the runs of an Eval compiles to a run query exactly when its clause parses and
  -- means the query's filter (or there is neither), each sort key checks, as a sort of the run
  -- projection, to the query's at its place, the cursor if there is one has as many values as
  -- keys, and the query's Cards are the table's and its limit and cursor those given. The
  -- builder is assumed to give a diagnostic when it refuses.
  pub compile_runs_iff :
      (request : QueryRequest) (t : PathTable) (limit : ℕ) (cursor : Option RunCursor)
      (q : RunQuery)
      → (compile_runs build request t limit cursor ≡ ok q) ↔ IsRunCompiled request t limit cursor q
  unfolding compile_runs
  compile_runs_iff request t limit cursor q =
      let f = compile_filter build request t in
      let keys = check_sorts (check_run_sort t) 0 request.sort in
      (
        λ h.
            let (silent, is) =
              unless_errors-ok (f.1 ++ (keys.1 ++ cursor_rule (run_cursor_keys cursor) keys.0))
                (run_query_of t limit cursor f.0 keys.0) q h in
            subst (IsRunCompiled request t limit cursor) is (
              parts_sound (check_run_sort t) (check_run_sort-IsReported t) request t
                  (run_cursor_keys cursor) silent,
              refl,
            ),
        λ h.
            let silent =
              parts_complete (check_run_sort t) request t (run_cursor_keys cursor) q.filter q.sort
                h.0 in
            rw (silent.0, silent.1.0, silent.1.1) (ap ok h.1),
      )
