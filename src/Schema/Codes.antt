-- ===== src/Schema/Codes.antt =====
-- crates/evalhub-schema/src/error.rs: the error codes, their declaration order and their HTTP status.
use evalhub.Base.{ℕ}

pub data ErrorCode : Type 0 where
  schema number_too_large counts_missing counts_inconsistent attachment_ref_unknown : ErrorCode
  attachment_path_invalid metric_id_invalid ext_key_invalid type_mismatch not_indexed : ErrorCode
  unknown_path attachment_missing label_in_use namespace_in_use registry_entry_exists : ErrorCode
  runs_moved run_status_detail run_id_invalid run_id_mismatch run_result_value_or_label : ErrorCode
  run_results_eval_unknown run_unknown run_not_in_used_set too_many_run_results : ErrorCode
  run_deleted batch_duplicate_run_id batch_too_large body_too_large : ErrorCode

-- `code as u8`: the place in the declaration
unfoldable pub as_u8 : ErrorCode → ℕ
as_u8 schema = 0
as_u8 number_too_large = 1
as_u8 counts_missing = 2
as_u8 counts_inconsistent = 3
as_u8 attachment_ref_unknown = 4
as_u8 attachment_path_invalid = 5
as_u8 metric_id_invalid = 6
as_u8 ext_key_invalid = 7
as_u8 type_mismatch = 8
as_u8 not_indexed = 9
as_u8 unknown_path = 10
as_u8 attachment_missing = 11
as_u8 label_in_use = 12
as_u8 namespace_in_use = 13
as_u8 registry_entry_exists = 14
as_u8 runs_moved = 15
as_u8 run_status_detail = 16
as_u8 run_id_invalid = 17
as_u8 run_id_mismatch = 18
as_u8 run_result_value_or_label = 19
as_u8 run_results_eval_unknown = 20
as_u8 run_unknown = 21
as_u8 run_not_in_used_set = 22
as_u8 too_many_run_results = 23
as_u8 run_deleted = 24
as_u8 batch_duplicate_run_id = 25
as_u8 batch_too_large = 26
as_u8 body_too_large = 27

unfoldable pub status : ErrorCode → ℕ
status attachment_missing = 409
status label_in_use = 409
status namespace_in_use = 409
status registry_entry_exists = 409
status run_deleted = 409
status batch_too_large = 413
status body_too_large = 413
status _ = 422
