-- ===== src/Store/Runs/Write.antt =====
-- crates/evalhub-store/src/runs.rs: runs that passed the checks are written, and the digest over the
-- Eval's runs with them.
use evalhub.Base.{
  ℕ, String, Bool, true, false, ◌&&◌, Option, none, some, List, [], ◌∷◌, ◌++◌, map, ◌==◌,
  if◌then◌else◌, str_eq, is_some,
}
use evalhub.Base.Lists.{find, any}
use evalhub.Json.{Value, Float, string, end, member}
use evalhub.Core.Runs.{runs_hash}
use evalhub.Store.Rows.{update_where, delete_where, select_where}
use evalhub.Store.Db.{
  RunRow, RunMetricRow, RunAttachmentRefRow, RunFingerprintRow, Actor, AuditRow, Db, StoreError, ok,
  err, Tx, ◌>>=◌, ◌>>◌, pure, fetch, execute,
}
use evalhub.Store.Db.Crates.{Crates}
use evalhub.Store.Records.{audit_row}
use evalhub.Store.Runs.{is_run, find_run, lock_with_header, subject}
use evalhub.Store.Runs.Prepare.{Checked}
use evalhub.Store.Runs.Checks.{RunInput, input_of, check_batch}

pub data RunChange : Type 0 where
  created updated unchanged : RunChange

pub record RunWritten : Type 0 where
  pub run_id : String
  pub change : RunChange
  pub content_hash : ℕ
  pub status : String
  pub archived : Bool

pub record RunsWritten : Type 0 where
  pub record_id : ℕ
  pub runs : List RunWritten
  pub runs_hash : ℕ

abbrev pub is_archived : Option RunRow → Bool
is_archived none = false
is_archived (some u) = is_some u.archived_at

unfoldable pub change_of : Option RunRow → ℕ → RunChange
change_of none hash = created
change_of (some u) hash = if u.content_hash == hash then unchanged else updated

abbrev pub is_change : RunChange → Bool
is_change unchanged = false
is_change _ = true

abbrev pub new_row : ℕ → ℕ → Checked → RunRow
new_row now record_id checked = record {
  record_id = record_id;
  run_id = checked.run_id;
  status = checked.status;
  error_kind = checked.error_kind;
  started_at = checked.started_at;
  ended_at = checked.ended_at;
  body = some checked.body;
  content_hash = checked.content_hash;
  created_at = now;
  updated_at = now;
  archived_at = none;
  tombstoned_at = none;
  tombstone_reason = none;
  tombstone_note = none;
}

-- `ON CONFLICT … DO UPDATE SET …`
abbrev pub overwrite : ℕ → Checked → RunRow → RunRow
overwrite now checked u = record u {
  status = checked.status;
  error_kind = checked.error_kind;
  started_at = checked.started_at;
  ended_at = checked.ended_at;
  body = some checked.body;
  content_hash = checked.content_hash;
  updated_at = now;
}

unfoldable pub upsert_row : ℕ → ℕ → Checked → List RunRow → List RunRow
upsert_row now record_id checked runs =
    if is_some (find_run record_id checked.run_id runs)
    then update_where (is_run record_id checked.run_id) (overwrite now checked) runs
    else runs ++ new_row now record_id checked ∷ []

abbrev metric_row : ℕ → String → String × Float → RunMetricRow
metric_row record_id run_id (metric, value) = record {
  record_id = record_id;
  run_id = run_id;
  metric = metric;
  value = value;
}

abbrev pub ref_row : ℕ → String → String × ℕ → RunAttachmentRefRow
ref_row record_id run_id (path, sha) = record {
  record_id = record_id;
  run_id = run_id;
  sha256 = sha;
  path = path;
}

abbrev fingerprint_row : ℕ → String → String × ℕ → RunFingerprintRow
fingerprint_row record_id run_id (facet, fp) = record {
  record_id = record_id;
  run_id = run_id;
  facet = facet;
  fingerprint = fp;
}

-- The run's row, and its rows in the three side tables.
unfoldable pub upsert : ℕ → ℕ → Checked → Db → Db
upsert now record_id checked db = record db {
  runs = upsert_row now record_id checked db.runs;
  run_metrics =
      delete_where (λ m. m.record_id == record_id && str_eq m.run_id checked.run_id) db.run_metrics
      ++ map (metric_row record_id checked.run_id) checked.metrics;
  run_attachment_refs =
      delete_where (λ a. a.record_id == record_id && str_eq a.run_id checked.run_id)
        db.run_attachment_refs
      ++ map (ref_row record_id checked.run_id) checked.attachments;
  run_fingerprints =
      delete_where (λ f. f.record_id == record_id && str_eq f.run_id checked.run_id)
        db.run_fingerprints
      ++ map (fingerprint_row record_id checked.run_id) checked.fingerprints;
}

unfoldable pub written_of : List RunRow → ℕ → Checked → RunWritten
written_of existing record_id checked =
    let prior = find_run record_id checked.run_id existing in
    record {
      run_id = checked.run_id;
      change = change_of prior checked.content_hash;
      content_hash = checked.content_hash;
      status = checked.status;
      archived = is_archived prior;
    }

-- Steps 3 and 4, on the rows that stood there before the batch.
unfoldable pub write_each : ℕ → List RunRow → ℕ → List Checked → Db → Db
write_each now existing record_id [] db = db
write_each now existing record_id (checked ∷ rest) db = write_each now existing record_id rest (
    if is_change (written_of existing record_id checked).change
    then upsert now record_id checked db
    else db)

abbrev pub hash_pair : RunRow → String × ℕ
hash_pair u = (u.run_id, u.content_hash)

abbrev pub set_runs_hash : ℕ → ℕ → Db → Db
set_runs_hash record_id digest db = record db {
  records =
      update_where (λ r. r.id == record_id) (λ r. record r { runs_hash = some digest }) db.records;
}

abbrev run_action : RunChange → String
run_action created = "run.create"
run_action _ = "run.update"

abbrev pub changed_any : List RunWritten → Bool
changed_any written = any (λ w. is_change w.change) written

abbrev pub run_list : List RunRow → ℕ → List Checked → List RunWritten
run_list existing record_id checked = map (written_of existing record_id) checked

module _ (c : Crates) where
  unfoldable pub digest_of : ℕ → List RunRow → Option ℕ
  digest_of record_id runs =
      runs_hash c.digest c.as_hex
        (map hash_pair (select_where (λ u. u.record_id == record_id) runs))

  unfoldable pub recompute_runs_hash : ℕ → Tx ℕ
  recompute_runs_hash record_id = do
    digest ← fetch (λ db. digest_of record_id db.runs) StoreError.canonical
    execute (set_runs_hash record_id digest)
    pure digest

  unfoldable pub empty_runs_hash : Option ℕ
  empty_runs_hash = runs_hash c.digest c.as_hex []

  abbrev stored_or_empty : Option ℕ → Option ℕ
  stored_or_empty none = empty_runs_hash
  stored_or_empty (some h) = some h

  unfoldable pub current_runs_hash : ℕ → Tx ℕ
  unfolding empty_runs_hash
  current_runs_hash record_id = do
    row ← fetch (λ db. find (λ r. r.id == record_id) db.records) StoreError.query
    fetch (λ db. stored_or_empty row.runs_hash) StoreError.canonical

  abbrev run_audit : String → String → Actor → RunWritten → AuditRow
  run_audit ns name actor w =
      audit_row actor ns (run_action w.change) (subject ns name w.run_id)
        (member "content_hash" (string (c.as_hex w.content_hash)) end)

  -- Step 6: one row for each run that was created or updated.
  unfoldable pub audit_rows : String → String → Actor → List RunWritten → List AuditRow
  audit_rows ns name actor [] = []
  audit_rows ns name actor (w ∷ ws) =
      if is_change w.change
      then run_audit ns name actor w ∷ audit_rows ns name actor ws
      else audit_rows ns name actor ws

  -- Steps 3 to 6 for elements that passed.
  unfoldable pub write_checked : ℕ → ℕ → String → String → Actor → List Checked → Tx RunsWritten
  unfolding written_of
  write_checked now record_id ns name actor checked db =
      let written = run_list db.runs record_id checked in
      (do
        execute (write_each now db.runs record_id checked)
        digest ←
            if changed_any written
            then recompute_runs_hash record_id
            else current_runs_hash record_id
        execute (λ after. record after { audit = after.audit ++ audit_rows ns name actor written })
        pure (record { record_id = record_id; runs = written; runs_hash = digest }))
        db

  unfoldable pub write_runs :
      ℕ → ℕ → String → String → Value → List RunInput → Actor → Tx RunsWritten
  unfolding write_checked
  write_runs now record_id ns name header inputs actor db =
      elim (check_batch c db record_id header inputs) [
        | err e ↦ err e
        | ok checked ↦ write_checked now record_id ns name actor checked db
      ]

  unfoldable pub put_inputs : ℕ → String → String → List RunInput → Actor → Tx RunsWritten
  unfolding write_runs
  put_inputs now ns name inputs actor = do
    (row, header) ← lock_with_header ns name
    write_runs now row.id ns name header inputs actor

  unfoldable pub put : ℕ → String → String → String → Value → Actor → Tx RunsWritten
  unfolding put_inputs
  put now ns name run_id body actor =
      put_inputs now ns name (record { run_id = run_id; body = body } ∷ []) actor

  unfoldable pub put_batch : ℕ → String → String → List Value → Actor → Tx RunsWritten
  unfolding put_inputs
  put_batch now ns name runs actor = put_inputs now ns name (map input_of runs) actor
