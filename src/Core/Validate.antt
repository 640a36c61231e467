-- ===== src/Core/Validate.antt =====
-- crates/evalhub-core/src/validate.rs: `validate` for a record, `run` for a run of an Eval. The compiled
-- JSON Schema documents are a parameter: for each, the paths at which a value fails it.
pub mod Record
pub mod Run
pub mod Accepted
pub mod Laws
pub mod Counts
pub mod Total
pub mod RunTotal
use evalhub.Base.{
  String, Bool, true, false, Option, none, some, List, [], ◌++◌, map, if◌then◌else◌, str_eq, ◌>>=◌,
  is_some,
}
use evalhub.Base.Lists.{contains}
use evalhub.Json.{Value, get_key, as_str}
use evalhub.Schema.{RecordKind, card, eval, eval_schema, schema_id, schema_ids, ErrorEntry}
use evalhub.Schema.Codes.{schema, runs_moved}
use evalhub.Core.Report.{push, sort}
use evalhub.Core.Numbers.{numbers}
use evalhub.Core.Validate.Record.{semantic}
use evalhub.Core.Validate.Run.{run_semantic}

-- The `jsonschema` crate over the generated documents: by identifier, and the one for a run.
pub record Validators : Type 0 where
  pub record_errors : String → Value → List String
  pub run_errors : Value → List String

abbrev pub eval_schema_1_0 : String
eval_schema_1_0 = "evalhub.eval/1.0"

abbrev accepted : RecordKind → Option String → String
accepted kind none = schema_id kind
accepted kind (some id) = if contains (schema_ids kind) id then id else schema_id kind

-- `record_validator`: the identifier whose document checks the record
unfoldable pub record_validator : RecordKind → Option String → String
record_validator kind declared = accepted kind declared

abbrev pub eval_moved : Value → Option String → Bool
eval_moved value none = false
eval_moved value (some id) =
    if str_eq id eval_schema_1_0
    then true
    else if str_eq id eval_schema
    then is_some (get_key value "runs")
    else false

unfoldable pub runs_moved_here : RecordKind → Value → Bool
runs_moved_here card value = false
runs_moved_here eval value = eval_moved value (get_key value "schema" >>= as_str)

abbrev at_schema : String → ErrorEntry
at_schema path = record { path = path; code = schema }

unfoldable pub structural : List String → List ErrorEntry
structural paths = map at_schema paths

module _ (v : Validators) where
  -- What the three passes collect, before it is sorted.
  unfoldable pub collected : RecordKind → Value → List ErrorEntry
  collected kind value =
      structural (v.record_errors (record_validator kind (get_key value "schema" >>= as_str)) value)
      ++ (numbers "" value ++ semantic kind value)

  unfoldable pub validate : RecordKind → Value → List ErrorEntry
  validate kind value =
      if runs_moved_here kind value then push "/runs" runs_moved else sort (collected kind value)

  unfoldable pub run_collected : String → Value → List ErrorEntry
  run_collected run_id value =
      structural (v.run_errors value) ++ (numbers "" value ++ run_semantic run_id value)

  unfoldable pub run : String → Value → List ErrorEntry
  run run_id value = sort (run_collected run_id value)
