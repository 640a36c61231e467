-- ===== src/Query/Check.antt =====
-- crates/evalhub-query/src/typecheck.rs: the type check of a filter and of a whole request.
pub mod Terms
pub mod Filters
pub mod Sorts
pub mod Typing
pub mod Sound
pub mod Requests
pub mod Columns
pub mod Reports
use evalhub.Base.{
  ℕ, ◌+◌, ◌⊎◌, String, Bool, true, false, not, ◌&&◌, Option, none, some, List, [], ◌∷◌, ◌++◌, map,
  if◌then◌else◌, str_eq, ◌==◌,
}
use evalhub.Base.Lists.{is_empty, length}
use evalhub.Base.Text.{◌+++◌}
use evalhub.Base.Decimal.{decimal}
use evalhub.Json.{Value, Members}
use evalhub.Schema.{RecordKind, card, eval, ErrorEntry}
use evalhub.Schema.Codes.{schema}
use evalhub.Core.Report.{push}
use evalhub.Query.Ir
use evalhub.Query.Ir.{
  Dir, Expand, RecordType, VersionSelector, SortKey, Sort, Cursor, RunCursor, Query, RunQuery,
}
use evalhub.Query.Grammar
use evalhub.Query.Grammar.{Parsed, ok, err, parse}
use evalhub.Query.Table.{PathTable, cards}
use evalhub.Query.Check.Terms.{Checked}
use evalhub.Query.Check.Filters.{check}
use evalhub.Query.Check.Sorts.{check_sort, check_run_sort}

-- crates/evalhub-schema/src/query.rs: the request's envelope, whose direction, `expand` and version
-- selector are spelled as in the tree.
pub record SortRequest : Type 0 where
  pub path : String
  pub dir : Dir

pub record QueryRequest : Type 0 where
  pub where_clause : Option Value
  pub sort : List SortRequest
  pub limit : Option ℕ
  pub cursor : Option String
  pub expand : List Expand
  pub version : Option VersionSelector

abbrev pub kept : Parsed Ir.Filter → Checked Ir.Filter
kept (ok filter) = (some filter, [])
kept (err errors) = (none, errors)

abbrev pub then_check : PathTable → Parsed Grammar.Filter → Checked Ir.Filter
then_check t (ok ast) = kept (check ast t)
then_check t (err errors) = (none, errors)

abbrev pub parse_clause :
    (Value → Parsed Grammar.Filter) → PathTable → Option Value → Checked Ir.Filter
parse_clause parse t none = (none, [])
parse_clause parse t (some value) = then_check t (parse value)

abbrev pub keep_sort : Option SortKey → Dir → List Sort → List Sort
keep_sort none dir rest = rest
keep_sort (some key) dir rest = record { key = key; dir = dir } ∷ rest

-- The loop over `request.sort`, which skips the keys that do not check.
unfoldable pub check_sorts :
    (String → String → Checked SortKey) → ℕ → List SortRequest → List Sort × List ErrorEntry
check_sorts check_one i [] = ([], [])
check_sorts check_one i (key ∷ rest) =
    let (checked, errors) = check_one key.path ("/sort/" +++ decimal i) in
    let (sort, more) = check_sorts check_one (i + 1) rest in
    (keep_sort checked key.dir sort, errors ++ more)

abbrev pub cursor_rule : Option (List Value) → List Sort → List ErrorEntry
cursor_rule none sort = []
cursor_rule (some keys) sort = if length keys == length sort then [] else push "/cursor" schema

abbrev pub cursor_keys : Option Cursor → Option (List Value)
cursor_keys none = none
cursor_keys (some c) = some c.keys

abbrev pub run_cursor_keys : Option RunCursor → Option (List Value)
run_cursor_keys none = none
run_cursor_keys (some c) = some c.keys

abbrev pub record_type_of : RecordKind → RecordType
record_type_of card = RecordType.card
record_type_of eval = RecordType.eval

abbrev pub version_or_latest : Option VersionSelector → VersionSelector
version_or_latest none = VersionSelector.latest
version_or_latest (some v) = v

abbrev pub unless_errors {ℓ} : {A : Type ℓ} → List ErrorEntry → A → Parsed A
unless_errors errors a = if is_empty errors then ok a else err errors

-- `build` is the derived builder that `grammar::parse` calls.
module _ (build : Value → Grammar.Filter ⊎ ℕ) where
  unfoldable pub compile_filter : QueryRequest → PathTable → Checked Ir.Filter
  compile_filter request t = parse_clause (parse build) t request.where_clause

  unfoldable pub compile : QueryRequest → RecordKind → PathTable → ℕ → Option Cursor → Parsed Query
  compile request kind t limit cursor =
      let (filter, found) = compile_filter request t in
      let (sort, more) = check_sorts (check_sort t) 0 request.sort in
      unless_errors (found ++ (more ++ cursor_rule (cursor_keys cursor) sort)) (record {
        record_type = record_type_of kind;
        filter = filter;
        sort = sort;
        limit = limit;
        cursor = cursor;
        expand = request.expand;
        version = version_or_latest request.version;
      })

  unfoldable pub compile_runs : QueryRequest → PathTable → ℕ → Option RunCursor → Parsed RunQuery
  compile_runs request t limit cursor =
      let (filter, found) = compile_filter request t in
      let (sort, more) = check_sorts (check_run_sort t) 0 request.sort in
      unless_errors (found ++ (more ++ cursor_rule (run_cursor_keys cursor) sort))
        (record { cards = cards t; filter = filter; sort = sort; limit = limit; cursor = cursor })
