-- ===== src/Store/Records/CardRuns.antt =====
-- crates/evalhub-store/src/records.rs: the versions that the relations of a new version resolve to,
-- and the used sets and run results of a new Card version.
use evalhub.Base.{
  ℕ, ◌^◌, String, Bool, true, not, ◌&&◌, Option, none, some, List, [], ◌∷◌, ◌++◌, map, ltb, ◌==◌,
  if◌then◌else◌, str_eq, ◌>>=◌,
}
use evalhub.Base.Lists.{find, filter_map, flat_map_from}
use evalhub.Base.Text.{◌+++◌}
use evalhub.Base.Decimal.{decimal}
use evalhub.Json.{Value, Float, get_key, as_str, as_array}
use evalhub.Schema.{ErrorEntry}
use evalhub.Core.Report.{sort}
use evalhub.Core.Facets.{unless_null}
use evalhub.Store.Db.{RecordRow, VersionRow, Db, StoreError, Result, ok, err}
use evalhub.Store.Db.Crates.{Crates}
use evalhub.Store.Records.{RecordType, type_str, visible_to}
use evalhub.Store.Runs.Prepare.{as_f64}
use evalhub.Store.UsedSet.{
  UsesEval, UsedSet, runs_of, contains_id, lock_evals, id_set, fix, RunResultRef, check_run_results,
}

pub data RelationTarget : Type 0 where
  version : (ns name : String) (seq : ℕ) (record_type : Option RecordType) → RelationTarget
  external : String → RelationTarget

pub record NewRelation : Type 0 where
  pub relation_type : String
  pub target : RelationTarget
  pub attrs : Option Value

pub record ResolvedVersion : Type 0 where
  pub version_id : ℕ
  pub record_id : ℕ
  pub record_type : String

abbrev of_type : Option RecordType → String → Bool
of_type none type = true
of_type (some t) type = str_eq type (type_str t)

abbrev target_record : String → String → Option RecordType → List String → ℕ → RecordRow → Bool
target_record ns name type readable_ns id r =
    (r.id == id && (str_eq r.ns ns && str_eq r.name name))
    && (of_type type r.type && visible_to r.visibility ns readable_ns)

abbrev resolved_in : VersionRow → Option RecordRow → Option ResolvedVersion
resolved_in v none = none
resolved_in v (some r) =
    some (record { version_id = v.version_id; record_id = v.record_id; record_type = r.type })

abbrev resolved_row :
    Db → String → String → ℕ → Option RecordType → List String → VersionRow → Option ResolvedVersion
resolved_row db ns name seq type readable_ns v =
    if v.seq == seq
    then resolved_in v (find (target_record ns name type readable_ns v.record_id) db.records)
    else none

-- `if visible.len() == 1`
abbrev only_one : List ResolvedVersion → Option ResolvedVersion
only_one (v ∷ []) = some v
only_one _ = none

unfoldable pub resolve_version :
    Db → String → String → ℕ → Option RecordType → List String → Option ResolvedVersion
resolve_version db ns name seq type readable_ns =
    only_one (filter_map (resolved_row db ns name seq type readable_ns) db.versions)

unfoldable pub resolve_target : Db → List String → RelationTarget → Option ResolvedVersion
resolve_target db readable_ns (version ns name seq type) =
    resolve_version db ns name seq type readable_ns
resolve_target db readable_ns (external s) = none

-- A relation of the new version, with what it resolved to.
abbrev pub Edge : Type 0
Edge = NewRelation × Option ResolvedVersion

abbrev pub uses_eval_type : String
uses_eval_type = "core/uses_eval"

abbrev eval_record_of : String → Option ResolvedVersion → Option ℕ
eval_record_of type none = none
eval_record_of type (some t) =
    if str_eq type uses_eval_type && str_eq t.record_type "eval" then some t.record_id else none

-- The Eval record that an edge uses.
abbrev pub used_eval : Edge → Option ℕ
used_eval (rel, target) = eval_record_of rel.relation_type target

abbrev demoted : List ℕ → List ℕ → Option ResolvedVersion → Option ResolvedVersion
demoted candidates visible none = none
demoted candidates visible (some t) =
    if contains_id candidates t.record_id && not (contains_id visible t.record_id)
    then none
    else some t

abbrev demote_edge : List ℕ → List ℕ → Edge → Edge
demote_edge candidates visible (rel, target) = (rel, demoted candidates visible target)

-- An edge into an Eval that its writer may no longer see is left unresolved.
unfoldable pub demote : Db → List String → List Edge → List Edge
demote db readable_ns edges =
    let candidates = id_set (filter_map used_eval edges) in
    map (demote_edge candidates (lock_evals db candidates readable_ns)) edges

abbrev uses_at : ℕ → NewRelation → Option ℕ → List UsesEval
uses_at j rel none = []
uses_at j rel (some id) =
    record {
      eval_record_id = id;
      runs = runs_of rel.attrs;
      runs_path = some ("/relations/" +++ (decimal j +++ "/attrs/runs"));
    }
    ∷ []

abbrev edge_uses : ℕ → Edge → List UsesEval
edge_uses j edge = uses_at j edge.0 (used_eval edge)

unfoldable pub uses_of : List Edge → List UsesEval
uses_of edges = flat_map_from 0 edge_uses edges

abbrev named_eval : RelationTarget → Option ℕ → List (String × ℕ) → List (String × ℕ)
named_eval (version ns name seq type) (some id) evals = (ns +++ ("/" +++ name), id) ∷ evals
named_eval _ _ evals = evals

-- `eval_records`: a later edge of a name stands before an earlier one, whose place it takes.
unfoldable pub eval_records : List Edge → List (String × ℕ) → List (String × ℕ)
eval_records [] evals = evals
eval_records (edge ∷ edges) evals =
    eval_records edges (named_eval edge.0.target (used_eval edge) evals)

unfoldable pub eval_named : List (String × ℕ) → String → Option ℕ
eval_named [] key = none
eval_named ((k, id) ∷ evals) key = if str_eq k key then some id else eval_named evals key

-- The row of one element of `run_results[]`, before it has a version.
pub record NewRunResult : Type 0 where
  pub ordinal : ℕ
  pub eval_record_id : ℕ
  pub run_id : String
  pub metric : String
  pub value : Option Float
  pub label : Option String
  pub by : Option Value

abbrev run_result_items : Value → List Value
run_result_items body = elim (get_key body "run_results" >>= as_array) [
  | none ↦ []
  | some items ↦ items
]

pub record CardRuns : Type 0 where
  pub used : List (ℕ × UsedSet)
  pub run_results : List NewRunResult

abbrev unless_errors : List ErrorEntry → CardRuns → Result CardRuns
unless_errors [] runs = ok runs
unless_errors (e ∷ es) runs = err (StoreError.card_runs_rejected (sort (e ∷ es)))

-- `refs` and `rows`, of the elements that carry the three texts.
unfoldable pub all_rows : List (RunResultRef × List NewRunResult) → List NewRunResult
all_rows [] = []
all_rows ((ref, rows) ∷ rest) = rows ++ all_rows rest

module _ (c : Crates) where
  -- `if let (Some(eval_record_id), Ok(ordinal)) = (…, i32::try_from(i))`
  abbrev row_of : ℕ → Option ℕ → String → String → Value → List NewRunResult
  row_of i none run_id metric item = []
  row_of i (some id) run_id metric item =
      if ltb i (2 ^ 31)
      then record {
        ordinal = i;
        eval_record_id = id;
        run_id = run_id;
        metric = metric;
        value = get_key item "value" >>= as_f64 c;
        label = get_key item "label" >>= as_str;
        by = unless_null (get_key item "by");
      }
        ∷ []
      else []

  abbrev ref_and_row :
      List (String × ℕ)
      → ℕ
      → Value
      → Option String
      → Option String
      → Option String
      → List (RunResultRef × List NewRunResult)
  ref_and_row evals i item (some eval) (some run_id) (some metric) =
      let id = eval_named evals eval in
      (record { index = i; eval_record_id = id; run_id = run_id }, row_of i id run_id metric item)
      ∷ []
  ref_and_row evals i item _ _ _ = []

  -- What the loop over `run_results[]` makes of each element that carries the three texts.
  unfoldable pub run_result_at :
      List (String × ℕ) → ℕ → Value → List (RunResultRef × List NewRunResult)
  run_result_at evals i item =
      ref_and_row evals i item (get_key item "eval" >>= as_str) (get_key item "run_id" >>= as_str)
        (get_key item "metric" >>= as_str)

  -- The used sets and the run results of a Card whose edges stand as `edges`.
  unfoldable pub fix_card_runs : Db → Value → List Edge → Result CardRuns
  fix_card_runs db body edges =
      let found = flat_map_from 0 (run_result_at (eval_records edges [])) (run_result_items body) in
      let (used, errors) = fix db.runs (uses_of edges) in
      unless_errors
        (errors
          ++ check_run_results db.runs (map (λ (f : RunResultRef × List NewRunResult). f.0) found)
              used)
        (record { used = used; run_results = all_rows found })
