-- ===== src/Query/Tests.antt =====
-- The theorems of the query language at concrete inputs.
use evalhub.Base.{String, ℕ, ◌⊎◌, ◌≡◌, refl, inl, none, some, List, [], ◌∷◌, arith}
use evalhub.Json.{Value, null}
use evalhub.Json
use evalhub.Base.Text.{strip_prefix}
use evalhub.Schema.{RecordKind}
use evalhub.Query.Ir
use evalhub.Query.Ir.{CardRef, RunColumn, Column, ValueType, VersionSelector, Dir, RunQuery, Query}
use evalhub.Query.Grammar.{
  Filter, or, not, compare, exists, no_filters, add_filter, ScalarOp, ok, lower, parse,
}
use evalhub.Query.Grammar.Laws.{to_wire, to_tagged, lower-to_wire}
use evalhub.Query.Table.{
  PathInfo, record_target, cards, full, scalar, PathTable, runs, find_path, resolve,
}
use evalhub.Query.Table.Laws.{OfRun}
use evalhub.Query.Check.{QueryRequest, compile_filter, check_sorts, compile, compile_runs}
use evalhub.Query.Check.Terms.{
  check_cmp, lookup_or_report, op_suits, index_serves, literal_matches, to_ir_op,
}
use evalhub.Query.Check.Filters.{check_at, check_all, check}
use evalhub.Query.Check.Sorts.{check_sort, check_run_sort}
use evalhub.Query.Check.Typing.{Means}
use evalhub.Query.Check.Sound.Filters.{check_iff}
use evalhub.Query.Check.Reports.{Speaks}
use evalhub.Query.Check.Requests.{IsCompiled, IsRunCompiled, compile_iff, compile_runs_iff}
use evalhub.Query.Check.Columns.{FilterReadsOnly, compile_runs-ReadsOnly}

abbrev seven : Value
seven = Value.number (Json.Number.pos_int 7)

-- `k` of the trial above seven, or no name of the harness.
abbrev filter : Filter
filter = or (
    add_filter (compare "trial.k" ScalarOp.gt seven)
      (add_filter (not (exists "harness.name")) no_filters))

-- Its tree, by the columns of the two paths.
abbrev tree_of : Column → Column → Ir.Filter
tree_of k name = Ir.Filter.or (
    Ir.Filters.cons (Ir.Filter.cmp (record { column = k; op = Ir.Op.gt; value = seven }))
      (Ir.Filters.cons (Ir.Filter.not (Ir.Filter.exists name)) Ir.Filters.nil))

abbrev run_name : RunColumn
run_name = RunColumn.facet ("harness" ∷ "name" ∷ [])

abbrev run_tree : Ir.Filter
run_tree = tree_of (Column.run (RunColumn.facet ("trial" ∷ "k" ∷ []))) (Column.run run_name)

abbrev record_name : Column
record_name = Column.generated "harness_name"

abbrev record_tree : Ir.Filter
record_tree = tree_of (Column.generated "trial_k") record_name

abbrev named : List CardRef
named = record { text = "acme/card" } ∷ []

-- The two paths in the table of a record, and of a run projection.
abbrev two_paths : Column → Column → List (String × PathInfo)
two_paths k name =
    ("harness.name", scalar name ValueType.string full)
    ∷ ("trial.k", scalar k ValueType.number full)
    ∷ []

abbrev record_table : PathTable
record_table = record {
  paths = two_paths (Column.generated "trial_k") record_name;
  target = record_target;
}

abbrev run_table : PathTable
run_table = record {
  paths = two_paths (Column.run (RunColumn.facet ("trial" ∷ "k" ∷ []))) (Column.run run_name);
  target = runs named;
}

-- A builder that gives the one tree for any value.
abbrev build : Value → Filter ⊎ ℕ
build v = inl filter

build-Speaks : Speaks build
build-Speaks v h = absurd (ground arith)

abbrev request : QueryRequest
request = record {
  where_clause = some (to_wire filter);
  sort = record { path = "harness.name"; dir = Dir.desc } ∷ [];
  limit = none;
  cursor = none;
  expand = [];
  version = none;
}

abbrev run_query : RunQuery
run_query = record {
  cards = named;
  filter = some run_tree;
  sort = record { key = Ir.SortKey.run run_name; dir = Dir.desc } ∷ [];
  limit = 50;
  cursor = some (record { keys = Value.string "ok" ∷ []; run_id = "r-1" });
}

abbrev query : Query
query = record {
  record_type = Ir.RecordType.card;
  filter = some record_tree;
  sort = record { key = Ir.SortKey.column record_name; dir = Dir.desc } ∷ [];
  limit = 50;
  cursor = none;
  expand = [];
  version = VersionSelector.latest;
}

lower-to_wire_example : lower (to_wire filter) "/where" ≡ (to_tagged filter, [])
lower-to_wire_example = lower-to_wire filter "/where"

checked : check filter run_table ≡ ok run_tree
unfolding check check_at check_all lookup_or_report check_cmp resolve find_path op_suits
    index_serves literal_matches to_ir_op
checked = refl

checked_record : check filter record_table ≡ ok record_tree
unfolding check check_at check_all lookup_or_report check_cmp resolve find_path op_suits
    index_serves literal_matches to_ir_op
checked_record = refl

check_iff_example : Means run_table filter run_tree
check_iff_example = (check_iff run_table filter run_tree).0 checked

clause_parsed : parse build (to_wire filter) ≡ ok filter
unfolding parse
clause_parsed = rw (lower-to_wire filter "/where") refl

compiled : compile build request RecordKind.card record_table 50 none ≡ ok query
unfolding compile compile_filter check_sorts check_sort resolve find_path strip_prefix
compiled = rw (clause_parsed, checked_record) refl

compile_iff_example :
    IsCompiled build build-Speaks request RecordKind.card record_table 50 none query
compile_iff_example =
    (compile_iff build build-Speaks request RecordKind.card record_table 50 none query).0 compiled

runs_compiled : compile_runs build request run_table 50 run_query.cursor ≡ ok run_query
unfolding compile_runs compile_filter check_sorts check_run_sort resolve find_path cards
runs_compiled = rw (clause_parsed, checked) refl

compile_runs_iff_example :
    IsRunCompiled build build-Speaks request run_table 50 run_query.cursor run_query
compile_runs_iff_example =
    (compile_runs_iff build build-Speaks request run_table 50 run_query.cursor run_query).0
      runs_compiled

compile_runs-ReadsOnly_example :
    (run_query.cards ≡ named) × FilterReadsOnly (OfRun named) run_query.filter
compile_runs-ReadsOnly_example =
    compile_runs-ReadsOnly build build-Speaks named run_table (refl, (tt, (tt, tt))) request 50
      run_query.cursor run_query runs_compiled
