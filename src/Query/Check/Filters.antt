-- ===== src/Query/Check/Filters.antt =====
-- crates/evalhub-query/src/typecheck.rs: the type check of a parsed filter.
use evalhub.Base.{ℕ, ◌+◌, String, Option, none, some, List, [], ◌++◌, if◌then◌else◌}
use evalhub.Base.Lists.{is_empty}
use evalhub.Base.Text.{◌+++◌}
use evalhub.Base.Decimal.{decimal}
use evalhub.Json.{Value}
use evalhub.Schema.Codes.{type_mismatch}
use evalhub.Core.Report.{push}
use evalhub.Query.Ir
use evalhub.Query.Ir.{ArrayTable, Column, Cmp}
use evalhub.Query.Grammar
use evalhub.Query.Grammar.{
  ScalarOp, MatchTerm, Filter, and, or, not, compare, exists, any, no_filters, add_filter, Parsed,
  ok, err,
}
use evalhub.Query.Table.{PathInfo, scalar, array, PathTable}
use evalhub.Query.Check.Terms.{Checked, check_cmp, check_terms, lookup_or_report}

-- `?` and `map` on what a check gives.
abbrev pub map_checked {ℓ κ} : {A : Type ℓ} {B : Type κ} → (A → B) → Checked A → Checked B
map_checked f (none, errors) = (none, errors)
map_checked f (some a, errors) = (some (f a), errors)

abbrev pub then_checked {ℓ κ} : {A : Type ℓ} {B : Type κ} → Checked A → (A → Checked B) → Checked B
then_checked (none, errors) f = (none, errors)
then_checked (some a, errors) f = let (b, more) = f a in (b, errors ++ more)

abbrev pub compare_at : ScalarOp → Value → String → PathInfo → Checked Ir.Filter
compare_at op value pointer (scalar column ty indexed) =
    map_checked Ir.Filter.cmp (check_cmp column ty indexed op value pointer)
compare_at op value pointer (array t) = (none, push (pointer +++ "/op") type_mismatch)

abbrev pub exists_at : String → PathInfo → Checked Ir.Filter
exists_at pointer (scalar column ty indexed) = (some (Ir.Filter.exists column), [])
exists_at pointer (array t) = (none, push (pointer +++ "/path") type_mismatch)

abbrev pub any_at : List (String × MatchTerm) → String → PathInfo → Checked Ir.Filter
any_at terms pointer (array side) =
    map_checked (Ir.Filter.any side) (check_terms side terms pointer)
any_at terms pointer (scalar column ty indexed) = (none, push (pointer +++ "/op") type_mismatch)

abbrev pub both_filters : Option Ir.Filter → Option Ir.Filters → Option Ir.Filters
both_filters (some f) (some fs) = some (Ir.Filters.cons f fs)
both_filters _ _ = none

-- The children are all checked, and the node is made if every one was.
unfoldable mutual
  pub check_at : Filter → PathTable → String → Checked Ir.Filter
  check_at (and children) t pointer =
      map_checked Ir.Filter.and (check_all children t (pointer +++ "/and") 0)
  check_at (or children) t pointer =
      map_checked Ir.Filter.or (check_all children t (pointer +++ "/or") 0)
  check_at (not child) t pointer = map_checked Ir.Filter.not (check_at child t (pointer +++ "/not"))
  check_at (compare path op value) t pointer =
      then_checked (lookup_or_report t path pointer) (compare_at op value pointer)
  check_at (exists path) t pointer =
      then_checked (lookup_or_report t path pointer) (exists_at pointer)
  check_at (any path terms) t pointer =
      then_checked (lookup_or_report t path pointer) (any_at terms pointer)

  pub check_all : Grammar.Filters → PathTable → String → ℕ → Checked Ir.Filters
  check_all no_filters t pointer i = (some Ir.Filters.nil, [])
  check_all (add_filter f fs) t pointer i =
      let (checked, errors) = check_at f t (pointer +++ "/" +++ decimal i) in
      let (rest, more) = check_all fs t pointer (i + 1) in
      (both_filters checked rest, errors ++ more)

abbrev pub finish : Checked Ir.Filter → Parsed Ir.Filter
finish (none, errors) = err errors
finish (some filter, errors) = if is_empty errors then ok filter else err errors

unfoldable pub check : Filter → PathTable → Parsed Ir.Filter
check ast t = finish (check_at ast t "/where")
