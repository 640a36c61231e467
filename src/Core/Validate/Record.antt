-- ===== src/Core/Validate/Record.antt =====
-- crates/evalhub-core/src/validate.rs, `semantic`: the rules on a record that the schema language cannot
-- express.
use evalhub.Base.{
  ℕ, ◌+◌, ◌%◌, ◌^◌, String, Bool, false, not, ◌&&◌, Option, none, some, List, [], ◌∷◌, ◌++◌, ltb,
  if◌then◌else◌, str_eq, ◌>>=◌, is_some,
}
use evalhub.Base.Lists.{flat_map, flat_map_from, filter_map, contains, is_empty}
use evalhub.Base.Text.{◌+++◌}
use evalhub.Base.Decimal.{decimal}
use evalhub.Json.{Value, Members, get, get_key, as_str, as_array, as_object, as_u64, is_null, keys}
use evalhub.Schema.{RecordKind, card, eval, ErrorEntry}
use evalhub.Schema.Codes.{
  schema, metric_id_invalid, ext_key_invalid, counts_missing, counts_inconsistent,
  run_result_value_or_label, run_results_eval_unknown,
}
use evalhub.Core.Ids.{RelationTarget, version, is_valid_id, parse_relation_target}
use evalhub.Core.Report.{push, escape_pointer}
use evalhub.Core.Attachments.{attachment_paths, ref_known}

-- `if let Some(s) = …`: nothing is reported where there is no text
abbrev pub if_some {ℓ} : {A : Type ℓ} → Option A → (A → List ErrorEntry) → List ErrorEntry
if_some none f = []
if_some (some a) f = f a

abbrev pub str_at : Value → String → Option String
str_at v key = get_key v key >>= as_str

unfoldable pub metric_id : String → String → List ErrorEntry
metric_id pointer m = if is_valid_id m then [] else push pointer metric_id_invalid

abbrev pub facets_with_ext : List String
facets_with_ext = "model" ∷ "task" ∷ "harness" ∷ "generation" ∷ "trial" ∷ "grading" ∷ "env" ∷ []

abbrev pub ext_key : String → String → List ErrorEntry
ext_key prefix key =
    if is_valid_id key then [] else push (prefix +++ "/ext/" +++ escape_pointer key) ext_key_invalid

unfoldable pub ext_keys : String → Members → List ErrorEntry
ext_keys prefix obj =
    if_some (get obj "ext" >>= as_object) (λ ext. flat_map (ext_key prefix) (keys ext))

unfoldable pub ext_keys_everywhere : Members → List ErrorEntry
ext_keys_everywhere obj =
    ext_keys "" obj
    ++ flat_map (λ facet. if_some (get obj facet >>= as_object) (λ f. ext_keys ("/" +++ facet) f))
        facets_with_ext

abbrev pub not_null : Option Value → Bool
not_null none = false
not_null (some v) = not (is_null v)

-- Absent and `null` both mean that the key is not given.
unfoldable pub given : Members → String → Bool
given obj key = not_null (get obj key)

abbrev pub if_uses_eval : Value → Option String → Option String
if_uses_eval rel none = none
if_uses_eval rel (some t) = if str_eq t "core/uses_eval" then str_at rel "to" else none

abbrev pub uses_eval_target : Value → Option String
uses_eval_target rel = if_uses_eval rel (str_at rel "type")

abbrev pub hub_record : Option RelationTarget → Option String
hub_record (some (version ns name seq)) = some (ns +++ "/" +++ name)
hub_record _ = none

abbrev pub used_eval : Value → Option String
used_eval rel = uses_eval_target rel >>= λ to. hub_record (parse_relation_target to)

abbrev pub on_relations : Option (List Value) → List String
on_relations none = []
on_relations (some relations) = filter_map used_eval relations

unfoldable pub used_eval_records : Members → List String
used_eval_records obj = on_relations (get obj "relations" >>= as_array)

unfoldable pub run_result : List String → ℕ → Members → List ErrorEntry
run_result evals i item =
    if_some (get item "metric" >>= as_str)
      (λ m. metric_id ("/run_results/" +++ decimal i +++ "/metric") m)
    ++ ((if not (given item "value") && not (given item "label")
          then push ("/run_results/" +++ decimal i) run_result_value_or_label
          else [])
        ++ if_some (get item "eval" >>= as_str) (λ e.
          if contains evals e
          then []
          else push ("/run_results/" +++ decimal i +++ "/eval") run_results_eval_unknown))

unfoldable pub run_results : Members → List ErrorEntry
run_results obj = if_some (get obj "run_results" >>= as_array) (λ items.
    flat_map_from 0 (λ i item. if_some (as_object item) (run_result (used_eval_records obj) i))
      items)

abbrev pub or_zero : Option ℕ → ℕ
or_zero none = 0
or_zero (some n) = n

-- `c.get(k).and_then(Value::as_u64).unwrap_or(0)`
abbrev pub count : Value → String → ℕ
count c k = or_zero (get_key c k >>= as_u64)

-- The `u64` sum of the four counts, with its wrap-around.
unfoldable pub counts_sum : Value → ℕ
counts_sum c =
    (count c "completed" + count c "failed" + count c "skipped" + count c "errored") % 2 ^ 64

abbrev pub non_null : Option Value → Option Value
non_null none = none
non_null (some v) = if is_null v then none else some v

abbrev pub counts_rule : List Value → Option Value → List ErrorEntry
counts_rule results none = if is_empty results then [] else push "/counts" counts_missing
counts_rule results (some c) =
    if_some (get_key c "attempted" >>= as_u64)
      (λ attempted. if ltb attempted (counts_sum c) then push "/counts" counts_inconsistent else [])

abbrev pub result_rule : List String → ℕ → Value → List ErrorEntry
result_rule paths i r =
    if_some (str_at r "metric") (λ m. metric_id ("/results/" +++ decimal i +++ "/metric") m)
    ++ if_some (str_at r "samples_ref")
        (λ s. ref_known paths ("/results/" +++ decimal i +++ "/samples_ref") s)

-- The rules on `results` and `counts`; without a `results` array neither is looked at.
unfoldable pub results_rules : List String → Members → List ErrorEntry
results_rules paths obj = if_some (get obj "results" >>= as_array) (λ results.
    flat_map_from 0 (result_rule paths) results
    ++ counts_rule results (non_null (get obj "counts")))

abbrev pub relation_rule : ℕ → Value → List ErrorEntry
relation_rule i rel =
    if_some (str_at rel "type")
      (λ t. if is_valid_id t then [] else push ("/relations/" +++ decimal i +++ "/type") schema)
    ++ if_some (str_at rel "to") (λ to.
      if is_some (parse_relation_target to)
      then []
      else push ("/relations/" +++ decimal i +++ "/to") schema)

unfoldable pub relations_rules : Members → List ErrorEntry
relations_rules obj =
    if_some (get obj "relations" >>= as_array)
      (λ relations. flat_map_from 0 relation_rule relations)

abbrev pub card_rules : RecordKind → List String → Members → List ErrorEntry
card_rules card paths obj = results_rules paths obj ++ run_results obj
card_rules eval paths obj = []

abbrev pub object_rules : RecordKind → Members → List ErrorEntry
object_rules kind obj =
    let (paths, errors) = attachment_paths obj in
    errors ++ (ext_keys_everywhere obj ++ (card_rules kind paths obj ++ relations_rules obj))

unfoldable pub semantic : RecordKind → Value → List ErrorEntry
semantic kind value = if_some (as_object value) (object_rules kind)
