-- ===== src/Core/Validate/Run.antt =====
-- crates/evalhub-core/src/validate.rs, `run_semantic`: the rules on one run, checked against itself.
use evalhub.Base.{
  String, Bool, true, false, Option, none, some, List, [], ◌++◌, if◌then◌else◌, str_eq, ◌>>=◌,
}
use evalhub.Base.Lists.{flat_map, flat_map_from}
use evalhub.Base.Text.{◌+++◌}
use evalhub.Base.Decimal.{decimal}
use evalhub.Json.{Value, Members, get, get_key, as_str, as_array, as_object, keys}
use evalhub.Schema.{ErrorEntry}
use evalhub.Schema.Codes.{run_id_invalid, run_id_mismatch, run_status_detail}
use evalhub.Core.Ids.{is_valid_run_id}
use evalhub.Core.Report.{push, escape_pointer}
use evalhub.Core.Attachments.{attachment_paths, ref_known}
use evalhub.Core.Validate.Record.{if_some, metric_id, ext_keys_everywhere, given}

-- Whether a recognised status wants `error` and `skip_reason`.
unfoldable pub status_expects : String → Option (Bool × Bool)
status_expects s =
    if str_eq s "ok"
    then some (false, false)
    else if str_eq s "error"
    then some (true, false)
    else if str_eq s "skipped"
    then some (false, true)
    else none

-- `has != wanted`
abbrev pub differ : Bool → Bool → Bool
differ true b = if b then false else true
differ false b = b

unfoldable pub detail : Members → String → Bool → List ErrorEntry
detail obj key wanted =
    if differ (given obj key) wanted then push ("/" +++ key) run_status_detail else []

unfoldable pub status_rules : Members → List ErrorEntry
status_rules obj = if_some (get obj "status" >>= as_str) (λ status.
    if_some (status_expects status)
      (λ wants. detail obj "error" wants.0 ++ detail obj "skip_reason" wants.1))

abbrev pub run_refs : List String → Members → List ErrorEntry
run_refs paths obj =
    if_some (get obj "calls" >>= as_str) (λ c. ref_known paths "/calls" c)
    ++ (if_some (get obj "artifacts" >>= as_array) (λ artifacts.
          flat_map_from 0
            (λ j a. if_some (as_str a) (λ s. ref_known paths ("/artifacts/" +++ decimal j) s))
            artifacts)
        ++ if_some (get obj "error" >>= (λ e. get_key e "log") >>= as_str)
            (λ log. ref_known paths "/error/log" log))

abbrev pub run_metrics : Members → List ErrorEntry
run_metrics obj =
    if_some (get obj "metrics" >>= as_object) (λ metrics.
      flat_map (λ key. metric_id ("/metrics/" +++ escape_pointer key) key) (keys metrics))

abbrev pub run_body : String → Members → List ErrorEntry
run_body run_id obj =
    let (paths, errors) = attachment_paths obj in
    if_some (get obj "run_id" >>= as_str)
      (λ body_id. if str_eq body_id run_id then [] else push "/run_id" run_id_mismatch)
    ++ (status_rules obj
        ++ (errors ++ (run_refs paths obj ++ (run_metrics obj ++ ext_keys_everywhere obj))))

unfoldable pub run_semantic : String → Value → List ErrorEntry
run_semantic run_id value =
    (if is_valid_run_id run_id then [] else push "/run_id" run_id_invalid)
    ++ if_some (as_object value) (run_body run_id)
