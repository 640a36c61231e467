-- ===== src/Store/Records/Ingest.antt =====
-- crates/evalhub-store/src/records.rs: `create_or_append`, a new version of a record.
pub mod Steps
pub mod Laws
use evalhub.Base.{
  ℕ, ◌+◌, String, Bool, true, false, not, ◌&&◌, ◌||◌, Option, none, some, List, [], ◌∷◌, ◌++◌, map,
  ltb, ◌==◌, if◌then◌else◌, str_eq, is_some, ◌>>=◌ as and_then,
}
use evalhub.Base.Lists.{any, contains, find}
use evalhub.Base.Text.{◌+++◌, cmp, is_gt, all_chars, split_once}
use evalhub.Base.Decimal.{decimal, is_digit}
use evalhub.Json.{Value, Float, Members, string, end, member, get, get_key, as_str, as_object, keys}
use evalhub.Store.Rows.{select_where}
use evalhub.Store.Db.{
  RecordRow, VersionRow, FingerprintRow, ResultRow, RelationRow, AttachmentRefRow, RunResultRow,
  RegistryRow, Actor, Db, StoreError, Result, ok, err, Tx, ◌>>=◌, ◌>>◌, pure, raise, fetch, execute,
  append,
}
use evalhub.Store.Db.Crates.{Crates}
use evalhub.Store.Records.{
  RecordType, card, eval, type_str, VersionMeta, version_meta, Visibility, parse_visibility,
  find_record, latest_live, max_seq, is_labelled, version_subject, audit_row,
}
use evalhub.Store.Records.CardRuns.{
  RelationTarget, version, external, NewRelation, ResolvedVersion, Edge, resolve_target, demote,
  NewRunResult, CardRuns, fix_card_runs,
}
use evalhub.Store.Runs.Checks.{is_ready}
use evalhub.Store.UsedSet
use evalhub.Store.Records.Posts.{
  CreateOutcome, IngestFacts, NewAttachmentRef, NewResult, NewVersion, all_metrics_registered,
  card_runs, changed_keys, created, edges_of, existing, harness_registered, insert_record,
  missing_attachments, none_missing, refs_resolved,
}

abbrev pub new_version : ℕ → ℕ → ℕ → ℕ → List String → List String → NewVersion → VersionRow
new_version now version_id record_id seq changed badges new = record {
  version_id = version_id;
  record_id = record_id;
  seq = seq;
  label = new.label;
  content_hash = new.content_hash;
  body = some new.body;
  changed = changed;
  badges = badges;
  created_at = now;
  tombstoned_at = none;
  tombstone_reason = none;
  tombstone_note = none;
}

abbrev pub label_taken : ℕ → Option String → List VersionRow → Bool
label_taken record_id none versions = false
label_taken record_id (some label) versions = any (is_labelled record_id label) versions

-- The check on `label`: it is never purely numeric.
abbrev label_refused : Option String → Bool
label_refused none = false
label_refused (some label) = not (str_eq label "") && all_chars is_digit label

unfoldable pub insert_version : VersionRow → Tx (Unit {0})
insert_version v db =
    if label_refused v.label
    then raise StoreError.query db
    else if label_taken v.record_id v.label db.versions
    then raise StoreError.label_in_use db
    else execute (λ d. record d { versions = d.versions ++ v ∷ [] }) db

abbrev target_text : RelationTarget → Option ResolvedVersion → Option String
target_text target (some t) = none
target_text (external s) none = some s
target_text (version ns name seq type) none =
    some (ns +++ ("/" +++ (name +++ ("@" +++ decimal seq))))

abbrev relation_row : ℕ → Edge → RelationRow
relation_row version_id (rel, target) = record {
  from_version_id = version_id;
  type = rel.relation_type;
  to_version_id = and_then target (λ t. some t.version_id);
  to_external = target_text rel.target target;
  attrs = rel.attrs;
}

abbrev fingerprint_row : ℕ → String × ℕ → FingerprintRow
fingerprint_row version_id (facet, fp) = record {
  version_id = version_id;
  facet = facet;
  fingerprint = fp;
}

abbrev result_row : ℕ → NewResult → ResultRow
result_row version_id r = record {
  version_id = version_id;
  ordinal = r.ordinal;
  metric = r.metric;
  aggregation = r.aggregation;
  value = r.value;
  n = r.n;
  by = r.by;
}

abbrev run_result_row : ℕ → NewRunResult → RunResultRow
run_result_row version_id r = record {
  version_id = version_id;
  ordinal = r.ordinal;
  eval_record_id = r.eval_record_id;
  run_id = r.run_id;
  metric = r.metric;
  value = r.value;
  label = r.label;
  by = r.by;
}

abbrev attachment_row : ℕ → NewAttachmentRef → AttachmentRefRow
attachment_row version_id a = record { version_id = version_id; sha256 = a.sha256; path = a.path }

-- Step 8: the side tables of the version.
unfoldable pub insert_sides : ℕ → NewVersion → List Edge → CardRuns → Db → Db
insert_sides version_id new edges runs db = record db {
  fingerprints = db.fingerprints ++ map (fingerprint_row version_id) new.fingerprints;
  results = db.results ++ map (result_row version_id) new.results;
  run_results = db.run_results ++ map (run_result_row version_id) runs.run_results;
  card_eval_runs = UsedSet.insert version_id runs.used db.card_eval_runs;
  relations = db.relations ++ map (relation_row version_id) edges;
  attachment_refs = db.attachment_refs ++ map (attachment_row version_id) new.attachments;
}

abbrev ingest_action : ℕ → String
ingest_action seq = if seq == 1 then "record.create" else "version.append"

unfoldable pub read_latest : ℕ → Tx (Option VersionRow)
read_latest record_id db = pure (latest_live record_id db.versions) db

abbrev pub facts_of : Db → NewVersion → List Edge → IngestFacts
facts_of db new edges = record {
  all_refs_resolved = refs_resolved edges;
  harness_registered = harness_registered db new.body;
  all_metrics_registered = all_metrics_registered db new.results;
}

module _ (c : Crates) (badges_for : IngestFacts → List String) where
  -- Steps 6 and 7: the row of the version.
  unfoldable pub next_version :
      ℕ → ℕ → ℕ → Option VersionRow → IngestFacts → NewVersion → List VersionRow → VersionRow
  next_version now version_id record_id latest facts new versions =
      new_version now version_id record_id (max_seq record_id versions + 1)
        (changed_keys c (and_then latest (λ l. l.body)) new.body) (badges_for facts) new

  -- Steps 4 to 8, when the latest live version is not this one already.
  unfoldable pub append_version :
      ℕ → ℕ → NewVersion → RecordRow → Option VersionRow → Tx CreateOutcome
  append_version now version_id new row latest db =
      let edges = edges_of db new in
      let facts = facts_of db new edges in
      let v = next_version now version_id row.id latest facts new db.versions in
      (do
        none_missing (missing_attachments db new.attachments)
        runs ← card_runs c new edges
        insert_version v
        execute (insert_sides version_id new edges runs)
        append (
            audit_row new.actor new.ns (ingest_action v.seq)
              (version_subject new.record_type new.ns new.name v.seq)
              (member "version_id" (string (c.uuid_text version_id))
                (member "content_hash" (string (c.as_hex new.content_hash)) end)))
        pure (created (version_meta (parse_visibility row.visibility) v) facts))
        db

  -- Step 3: the latest live version has this content already.
  unfoldable pub unless_same : ℕ → ℕ → NewVersion → RecordRow → Option VersionRow → Tx CreateOutcome
  unless_same now version_id new row none = append_version now version_id new row none
  unless_same now version_id new row (some l) =
      if l.content_hash == new.content_hash
      then pure (existing (version_meta (parse_visibility row.visibility) l))
      else append_version now version_id new row (some l)

  unfoldable pub create_or_append : ℕ → ℕ → ℕ → NewVersion → Tx CreateOutcome
  create_or_append now candidate_record_id version_id new = do
    row ← insert_record candidate_record_id new
    latest ← read_latest row.id
    unless_same now version_id new row latest
