-- ===== src/Store/Runs/Checks.antt =====
-- crates/evalhub-store/src/runs.rs: the checks on every element of a batch, before anything is
-- written.
pub mod Laws
use evalhub.Base.{
  ℕ, ◌+◌, String, Bool, false, not, ◌&&◌, Option, none, some, List, [], ◌∷◌, ◌++◌, ◌==◌,
  if◌then◌else◌, str_eq, is_some, ◌>>=◌ as and_then,
}
use evalhub.Base.Lists.{any, contains, flat_map_from}
use evalhub.Base.Text.{◌+++◌}
use evalhub.Base.Decimal.{decimal}
use evalhub.Json.{Value, get_key, as_str}
use evalhub.Schema.{ErrorEntry}
use evalhub.Schema.Codes.{batch_duplicate_run_id, run_deleted, attachment_missing}
use evalhub.Core.Report.{push, sort}
use evalhub.Core.Facets.{materialise}
use evalhub.Core.Validate
use evalhub.Store.Db.{RunRow, AttachmentRow, Db, RunRejection, StoreError, Result, ok, err}
use evalhub.Store.Db.Crates.{Crates}
use evalhub.Store.Runs.{find_run}
use evalhub.Store.Runs.Prepare.{Checked, prepare, decode_attachments}

pub record RunInput : Type 0 where
  pub run_id : String
  pub body : Value

-- A slot of `checked` that is filled, or the rejection of the element. An element has at most one
-- rejection, so that sorting them by index leaves them in the order of the elements.
pub data Slot : Type 0 where
  filled : Checked → Slot
  refused : RunRejection → Slot

abbrev text_or_empty : Option String → String
text_or_empty none = ""
text_or_empty (some s) = s

abbrev pub input_of : Value → RunInput
input_of body = record {
  run_id = text_or_empty (and_then (get_key body "run_id") as_str);
  body = body;
}

abbrev pub is_deleted : Option RunRow → Bool
is_deleted none = false
is_deleted (some u) = is_some u.tombstoned_at

abbrev slot_of : ℕ → RunInput → List ErrorEntry → Option Checked → Option Slot
slot_of index input [] none = none
slot_of index input [] (some checked) = some (filled checked)
slot_of index input (e ∷ es) _ =
    some (refused (record { index = index; run_id = input.run_id; errors = e ∷ es }))

abbrev next_slot : Option Slot → Option (List Slot) → Option (List Slot)
next_slot none _ = none
next_slot (some slot) none = none
next_slot (some slot) (some slots) = some (slot ∷ slots)

abbrev pub is_ready : List AttachmentRow → ℕ → Bool
is_ready attachments sha = any (λ a. a.sha256 == sha && str_eq a.state "ready") attachments

abbrev missing_at : List AttachmentRow → ℕ → String × ℕ → List ErrorEntry
missing_at attachments i (path, sha) =
    if is_ready attachments sha
    then []
    else push ("/attachments/" +++ (decimal i +++ "/sha256")) attachment_missing

unfoldable pub missing_entries : List AttachmentRow → Checked → List ErrorEntry
missing_entries attachments checked = flat_map_from 0 (missing_at attachments) checked.attachments

abbrev still_filled : ℕ → Checked → List ErrorEntry → Slot
still_filled index checked [] = filled checked
still_filled index checked (e ∷ es) =
    refused (record { index = index; run_id = checked.run_id; errors = e ∷ es })

abbrev ready_slot : List AttachmentRow → ℕ → Slot → Slot
ready_slot attachments index (refused r) = refused r
ready_slot attachments index (filled checked) =
    still_filled index checked (missing_entries attachments checked)

-- Step 2, f.
unfoldable pub ready_slots : List AttachmentRow → ℕ → List Slot → List Slot
ready_slots attachments index [] = []
ready_slots attachments index (slot ∷ slots) =
    ready_slot attachments index slot ∷ ready_slots attachments (index + 1) slots

abbrev rejection_of : Slot → List RunRejection
rejection_of (filled checked) = []
rejection_of (refused r) = record r { errors = sort r.errors } ∷ []

unfoldable pub rejections : List Slot → List RunRejection
rejections [] = []
rejections (slot ∷ slots) = rejection_of slot ++ rejections slots

abbrev checked_of : Slot → List Checked
checked_of (filled checked) = checked ∷ []
checked_of (refused r) = []

-- `checked.into_iter().flatten()`
unfoldable pub passed : List Slot → List Checked
passed [] = []
passed (slot ∷ slots) = checked_of slot ++ passed slots

abbrev accept : List RunRejection → List Checked → Result (List Checked)
accept [] checked = ok checked
accept (r ∷ rs) checked = err (StoreError.runs_rejected (r ∷ rs))

abbrev settle : List AttachmentRow → Option (List Slot) → Result (List Checked)
settle attachments none = err StoreError.canonical
settle attachments (some slots) =
    let final = ready_slots attachments 0 slots in accept (rejections final) (passed final)

abbrev pub duplicate_entry : List String → RunInput → List ErrorEntry
duplicate_entry seen input =
    if contains seen input.run_id && not (str_eq input.run_id "")
    then push "/run_id" batch_duplicate_run_id
    else []

abbrev pub deleted_entry : List RunRow → ℕ → RunInput → List ErrorEntry
deleted_entry existing record_id input =
    if is_deleted (find_run record_id input.run_id existing) then push "/run_id" run_deleted else []

module _ (c : Crates) where
  -- What is wrong with one element, before its attachments are looked up.
  unfoldable pub element_errors : List RunRow → ℕ → Value → List String → RunInput → List ErrorEntry
  element_errors existing record_id header seen input =
      let body = materialise input.body header in
      duplicate_entry seen input
      ++ (Validate.run c.validators input.run_id body
          ++ ((decode_attachments c body).1 ++ deleted_entry existing record_id input))

  abbrev prepared : RunInput → Value → Option Checked
  prepared input body = prepare c input.run_id body (decode_attachments c body).0

  unfoldable pub check_element : List RunRow → ℕ → Value → ℕ → List String → RunInput → Option Slot
  check_element existing record_id header index seen input =
      slot_of index input (element_errors existing record_id header seen input)
        (prepared input (materialise input.body header))

  -- Step 2, a to e; `none` where a body has no canonical form.
  unfoldable pub check_elements :
      List RunRow → ℕ → Value → ℕ → List String → List RunInput → Option (List Slot)
  check_elements existing record_id header index seen [] = some []
  check_elements existing record_id header index seen (input ∷ inputs) =
      next_slot (check_element existing record_id header index seen input)
        (check_elements existing record_id header (index + 1) (input.run_id ∷ seen) inputs)

  -- Step 2: every element, or every failing one.
  unfoldable pub check_batch : Db → ℕ → Value → List RunInput → Result (List Checked)
  check_batch db record_id header inputs =
      settle db.attachments (check_elements db.runs record_id header 0 [] inputs)
