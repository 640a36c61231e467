-- ===== src/Query/Check/Sorts.antt =====
-- crates/evalhub-query/src/typecheck.rs: one sort path of a record query, and of the run projection.
use evalhub.Base.{String, not, Option, none, some, [], if◌then◌else◌, str_eq}
use evalhub.Base.Text.{◌+++◌, strip_prefix, split_once, has_char}
use evalhub.Schema.Codes.{not_indexed, type_mismatch, unknown_path}
use evalhub.Core.Report.{push}
use evalhub.Query.Ir.{Column, run, SortKey}
use evalhub.Query.Table.{
  Indexed, full, eq_exists_only, eq_exists_untyped, PathInfo, scalar, array, PathTable, resolve,
}
use evalhub.Query.Check.Terms.{Checked}

abbrev pub metric_sort : String → String → String → Checked SortKey
metric_sort pointer metric tail =
    if not (str_eq tail ".value")
    then (none, push (pointer +++ "/path") unknown_path)
    else if not (has_char b'/' metric)
    then (none, push (pointer +++ "/path") unknown_path)
    else (some (SortKey.metric metric), [])

abbrev pub indexed_sort : String → Column → Indexed → Checked SortKey
indexed_sort pointer column full = (some (SortKey.column column), [])
indexed_sort pointer column eq_exists_only = (none, push (pointer +++ "/path") not_indexed)
indexed_sort pointer column eq_exists_untyped = (none, push (pointer +++ "/path") not_indexed)

abbrev pub column_sort : String → Option PathInfo → Checked SortKey
column_sort pointer (some (scalar column ty indexed)) = indexed_sort pointer column indexed
column_sort pointer (some (array t)) = (none, push (pointer +++ "/path") type_mismatch)
column_sort pointer none = (none, push (pointer +++ "/path") unknown_path)

abbrev pub split_sort : PathTable → String → String → Option (String × String) → Checked SortKey
split_sort t path pointer (some (metric, tail)) = metric_sort pointer metric tail
split_sort t path pointer none = column_sort pointer (resolve t path)

abbrev pub after_results : PathTable → String → String → Option String → Checked SortKey
after_results t path pointer (some rest) = split_sort t path pointer (split_once b']' rest)
after_results t path pointer none = column_sort pointer (resolve t path)

unfoldable pub check_sort : PathTable → String → String → Checked SortKey
check_sort t path pointer =
    if str_eq path "created_at"
    then (some SortKey.created_at, [])
    else after_results t path pointer (strip_prefix "results[" path)

abbrev pub run_column_sort : String → Column → Indexed → Checked SortKey
run_column_sort pointer (run column) indexed = (some (SortKey.run column), [])
run_column_sort pointer column indexed = indexed_sort pointer column indexed

abbrev pub run_sort : String → Option PathInfo → Checked SortKey
run_sort pointer (some (scalar column ty indexed)) = run_column_sort pointer column indexed
run_sort pointer (some (array t)) = (none, push (pointer +++ "/path") type_mismatch)
run_sort pointer none = (none, push (pointer +++ "/path") unknown_path)

unfoldable pub check_run_sort : PathTable → String → String → Checked SortKey
check_run_sort t path pointer = run_sort pointer (resolve t path)
