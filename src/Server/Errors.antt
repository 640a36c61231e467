-- ===== src/Server/Errors.antt =====
-- crates/evalhub-server/src/error.rs: the errors of the handlers, their HTTP status and their body.
-- Hints are prose and are left out, and an internal error says nothing.
pub mod Laws
use evalhub.Base.{
  ℕ, String, Bool, true, false, not, ◌&&◌, ◌==◌, Option, none, some, List, [], ◌∷◌, ◌++◌,
  if◌then◌else◌,
}
use evalhub.Base.Decimal.{decimal}
use evalhub.Base.Lists.{is_empty}
use evalhub.Base.Text.{◌+++◌}
use evalhub.Schema.{ErrorEntry}
use evalhub.Schema.Codes.{ErrorCode}
use evalhub.Schema.Codes
use evalhub.Store.Db.{StoreError, RunRejection}

pub data ApiError : Type 0 where
  validation attachment_missing conflict too_large : List ErrorEntry → ApiError
  label_in_use not_found forbidden unauthorized bad_request internal : ApiError
  namespace_in_use registry_entry_exists unavailable not_implemented : String → ApiError
  session_rejected : (secure : Bool) → ApiError

unfoldable pub status : ApiError → ℕ
status (validation es) = 422
status (attachment_missing es) = 409
status label_in_use = 409
status (namespace_in_use ns) = 409
status not_found = 404
status forbidden = 403
status unauthorized = 401
status (session_rejected secure) = 401
status bad_request = 400
status (unavailable what) = 503
status (not_implemented what) = 501
status (registry_entry_exists address) = 409
status (conflict es) = 409
status (too_large es) = 413
status internal = 500

-- One entry, with the place of its element in the batch before its path where `indexed`.
abbrev pub placed : Bool → ℕ → ErrorEntry → ErrorEntry
placed indexed index e =
    if indexed then record e { path = "/runs/" +++ decimal index +++ e.path } else e

abbrev pub all_placed : Bool → ℕ → List ErrorEntry → List ErrorEntry
all_placed indexed index [] = []
all_placed indexed index (e ∷ es) = placed indexed index e ∷ all_placed indexed index es

unfoldable pub entries : Bool → List RunRejection → List ErrorEntry
entries indexed [] = []
entries indexed (r ∷ rs) = all_placed indexed r.index r.errors ++ entries indexed rs

abbrev pub all_conflicts : List ErrorEntry → Bool
all_conflicts [] = true
all_conflicts (e ∷ es) = Codes.status e.code == 409 && all_conflicts es

unfoldable pub runs_rejected : List RunRejection → Bool → ApiError
unfolding entries
runs_rejected rejections indexed =
    let errors = entries indexed rejections in
    if not (is_empty errors) && all_conflicts errors then conflict errors else validation errors

abbrev one_entry : String → ErrorCode → Option (List ErrorEntry)
one_entry path code = some (record { path = path; code = code } ∷ [])

-- The entries of the body, where there is one.
unfoldable pub envelope : ApiError → Option (List ErrorEntry)
envelope (validation es) = some es
envelope (attachment_missing es) = some es
envelope (conflict es) = some es
envelope (too_large es) = some es
envelope label_in_use = one_entry "label" ErrorCode.label_in_use
envelope (namespace_in_use ns) = one_entry "ns" ErrorCode.namespace_in_use
envelope (registry_entry_exists address) = one_entry "" ErrorCode.registry_entry_exists
envelope _ = none

-- `From<StoreError>`
unfoldable pub from_store : StoreError → ApiError
unfolding runs_rejected
from_store StoreError.label_in_use = label_in_use
from_store StoreError.label_invalid = bad_request
from_store (StoreError.namespace_in_use ns) = namespace_in_use ns
from_store StoreError.registry_core_read_only = forbidden
from_store (StoreError.registry_entry_exists address) = registry_entry_exists address
from_store (StoreError.registry_entry_not_found address) = not_found
from_store (StoreError.namespace_unknown ns) = not_found
from_store (StoreError.not_an_organisation ns) = not_found
from_store StoreError.record_not_found = not_found
from_store StoreError.version_not_found = not_found
from_store StoreError.already_tombstoned = not_found
from_store StoreError.run_not_found = not_found
from_store (StoreError.run_cards_unknown cards) = not_found
from_store StoreError.run_deleted =
    conflict (record { path = "/run_id"; code = ErrorCode.run_deleted } ∷ [])
from_store (StoreError.runs_rejected rejections) = runs_rejected rejections true
from_store (StoreError.card_runs_rejected errors) = validation errors
from_store _ = internal
