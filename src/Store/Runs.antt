-- ===== src/Store/Runs.antt =====
-- crates/evalhub-store/src/runs.rs: the runs of an Eval, read, archived and deleted.
pub mod Prepare
pub mod Checks
pub mod Write
pub mod Table
pub mod Consistent
pub mod Moves
pub mod Shown
pub mod Ops
use evalhub.Base.{
  ℕ, String, Bool, true, false, not, ◌&&◌, ◌||◌, Option, none, some, List, [], ◌∷◌, ◌==◌,
  if◌then◌else◌, str_eq, is_some, ◌>>=◌ as and_then,
}
use evalhub.Base.Lists.{find, any, contains}
use evalhub.Base.Text.{◌+++◌}
use evalhub.Json.{Value, null, string, Members, end, member}
use evalhub.Store.Rows.{update_where, delete_where}
use evalhub.Store.Db.{
  RecordRow, VersionRow, RunRow, Actor, Db, StoreError, Tx, ◌>>=◌, ◌>>◌, pure, raise, fetch,
  execute, append,
}
use evalhub.Store.Db.Crates.{Crates}
use evalhub.Store.Records.{
  eval, Visibility, parse_visibility, TombstoneRequest, reason_str, Tombstone, visible_to,
  find_record, lock_record, latest_live, audit_row,
}
use evalhub.Store.Records.Reads.{read_tombstone}

pub record StoredRun : Type 0 where
  pub record_id : ℕ
  pub run_id : String
  pub status : String
  pub error_kind : Option String
  pub started_at : Option ℕ
  pub ended_at : Option ℕ
  pub body : Option Value
  pub content_hash : ℕ
  pub created_at : ℕ
  pub updated_at : ℕ
  pub archived_at : Option ℕ
  pub tombstone : Option Tombstone
  pub visibility : Visibility

unfoldable pub into_stored : RecordRow → RunRow → StoredRun
into_stored r u = record {
  record_id = u.record_id;
  run_id = u.run_id;
  status = u.status;
  error_kind = u.error_kind;
  started_at = u.started_at;
  ended_at = u.ended_at;
  body = u.body;
  content_hash = u.content_hash;
  created_at = u.created_at;
  updated_at = u.updated_at;
  archived_at = u.archived_at;
  tombstone = read_tombstone u.tombstoned_at u.tombstone_reason u.tombstone_note;
  visibility = parse_visibility r.visibility;
}

abbrev pub is_run : ℕ → String → RunRow → Bool
is_run record_id run_id u = u.record_id == record_id && str_eq u.run_id run_id

unfoldable pub find_run : ℕ → String → List RunRow → Option RunRow
find_run record_id run_id runs = find (is_run record_id run_id) runs

abbrev live_header : Option VersionRow → Option Value
live_header latest = and_then latest (λ v. v.body)

-- The record and the body of its latest live version.
unfoldable pub lock_with_header : String → String → Tx (RecordRow × Value)
lock_with_header ns name = do
  row ← lock_record eval ns name
  header ← fetch (λ db. live_header (latest_live row.id db.versions)) StoreError.record_not_found
  pure (row, header)

unfoldable pub subject : String → String → String → String
subject ns name run_id = "eval/" +++ (ns +++ ("/" +++ (name +++ ("/runs/" +++ run_id))))

abbrev shown_run : List String → String → RecordRow → Option RunRow → Option StoredRun
shown_run caller ns r none = none
shown_run caller ns r (some u) =
    if contains caller ns || not (is_some u.archived_at) then some (into_stored r u) else none

abbrev run_of : Db → String → String → List String → RecordRow → Option StoredRun
run_of db ns run_id caller r =
    if visible_to r.visibility r.ns caller && is_some (latest_live r.id db.versions)
    then shown_run caller ns r (find_run r.id run_id db.runs)
    else none

-- Run `run_id` of an Eval, as the caller may see it.
unfoldable pub get : Db → String → String → String → List String → Option StoredRun
get db ns name run_id caller =
    and_then (find_record eval ns name db.records) (run_of db ns run_id caller)

abbrev pub not_deleted : RunRow → Tx (Unit {0})
not_deleted u = if is_some u.tombstoned_at then raise StoreError.run_deleted else pure tt

-- The row of a run that has not been deleted.
unfoldable pub load_live : ℕ → String → Tx RunRow
load_live record_id run_id = do
  current ← fetch (λ db. find_run record_id run_id db.runs) StoreError.run_not_found
  not_deleted current
  pure current

-- `load`, once more, after the update.
unfoldable pub reload : RecordRow → String → Tx StoredRun
reload row run_id = do
  u ← fetch (λ db. find_run row.id run_id db.runs) StoreError.run_not_found
  pure (into_stored row u)

abbrev pub bury_run : ℕ → TombstoneRequest → RunRow → RunRow
bury_run now request u = record u {
  tombstoned_at = some now;
  tombstone_reason = some (reason_str request.reason);
  tombstone_note = request.note;
  body = none;
  updated_at = now;
}

abbrev pub bury : ℕ → ℕ → String → TombstoneRequest → Db → Db
bury now record_id run_id request db = record db {
  runs = update_where (is_run record_id run_id) (bury_run now request) db.runs;
  run_attachment_refs =
      delete_where (λ a. a.record_id == record_id && str_eq a.run_id run_id) db.run_attachment_refs;
}

abbrev note_value : Option String → Value
note_value none = null
note_value (some s) = string s

unfoldable pub tombstone :
    Crates → ℕ → String → String → String → TombstoneRequest → Actor → Tx StoredRun
unfolding reload
tombstone c now ns name run_id request actor = do
  (row, header) ← lock_with_header ns name
  current ← load_live row.id run_id
  execute (bury now row.id run_id request)
  append (
      audit_row actor ns "run.delete" (subject ns name run_id) (
        member "content_hash" (string (c.as_hex current.content_hash)) (
          member "reason" (string (reason_str request.reason))
            (member "note" (note_value request.note) end))))
  reload row run_id

-- `CASE WHEN $3 THEN now() ELSE NULL END`
abbrev pub archive_run : ℕ → Bool → RunRow → RunRow
archive_run now archived u = record u {
  archived_at = if archived then some now else none;
  updated_at = now;
}

abbrev pub mark : ℕ → ℕ → String → Bool → Db → Db
mark now record_id run_id archived db = record db {
  runs = update_where (is_run record_id run_id) (archive_run now archived) db.runs;
}

abbrev pub same : Bool → Bool → Bool
same true b = b
same false b = not b

-- What remains where the run is not yet as it was asked to be.
unfoldable pub change_archived :
    Crates → ℕ → String → String → String → Bool → Actor → RecordRow → RunRow → Tx StoredRun
unfolding reload
change_archived c now ns name run_id archived actor row current = do
  execute (mark now row.id run_id archived)
  append (
      audit_row actor ns (if archived then "run.archive" else "run.unarchive")
        (subject ns name run_id)
        (member "content_hash" (string (c.as_hex current.content_hash)) end))
  reload row run_id

unfoldable pub set_archived : Crates → ℕ → String → String → String → Bool → Actor → Tx StoredRun
unfolding change_archived
set_archived c now ns name run_id archived actor = do
  (row, header) ← lock_with_header ns name
  current ← load_live row.id run_id
  if same (is_some current.archived_at) archived
      then pure (into_stored row current)
      else change_archived c now ns name run_id archived actor row current

unfoldable pub archive : Crates → ℕ → String → String → String → Actor → Tx StoredRun
unfolding set_archived
archive c now ns name run_id actor = set_archived c now ns name run_id true actor

unfoldable pub unarchive : Crates → ℕ → String → String → String → Actor → Tx StoredRun
unfolding set_archived
unarchive c now ns name run_id actor = set_archived c now ns name run_id false actor
