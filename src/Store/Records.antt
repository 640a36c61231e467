-- ===== src/Store/Records.antt =====
-- crates/evalhub-store/src/records.rs: records and their versions. What a statement leaves to the
-- database's clock is the argument `now`, the start of the transaction.
pub mod Reads
pub mod Wellformed
pub mod Moves
pub mod Posts
pub mod CardRuns
pub mod Ingest
pub mod Ops
use evalhub.Base.{
  ℕ, String, Bool, true, false, not, ◌&&◌, ◌||◌, Option, none, some, List, [], ◌∷◌, ltb, ◌==◌,
  if◌then◌else◌, str_eq, is_some,
}
use evalhub.Base.Lists.{find, contains}
use evalhub.Base.Text.{◌+++◌, all_chars}
use evalhub.Base.Decimal.{decimal, is_digit}
use evalhub.Json.{Value, null, string, object, Members, end, member}
use evalhub.Store.Rows.{update_where, delete_where, select_where}
use evalhub.Store.Db.{
  RecordRow, VersionRow, Actor, AuditRow, Db, StoreError, Tx, ◌>>=◌, ◌>>◌, pure, raise, fetch,
  execute, append,
}
use evalhub.Store.Db.Crates.{Crates}

pub data RecordType : Type 0 where
  card eval : RecordType

unfoldable pub type_str : RecordType → String
type_str card = "card"
type_str eval = "eval"

pub data Visibility : Type 0 where
  private public : Visibility

unfoldable pub visibility_str : Visibility → String
visibility_str private = "private"
visibility_str public = "public"

unfoldable pub parse_visibility : String → Visibility
parse_visibility s = if str_eq s "public" then public else private

pub data TombstoneReason : Type 0 where
  withdrawn duplicate takedown other : TombstoneReason

unfoldable pub reason_str : TombstoneReason → String
reason_str withdrawn = "withdrawn"
reason_str duplicate = "duplicate"
reason_str takedown = "takedown"
reason_str other = "other"

unfoldable pub parse_reason : String → Option TombstoneReason
parse_reason s =
    if str_eq s "withdrawn"
    then some withdrawn
    else if str_eq s "duplicate"
    then some duplicate
    else if str_eq s "takedown"
    then some takedown
    else if str_eq s "other"
    then some other
    else none

pub record TombstoneRequest : Type 0 where
  pub reason : TombstoneReason
  pub note : Option String

pub record Tombstone : Type 0 where
  pub at : ℕ
  pub reason : TombstoneReason
  pub note : Option String

pub record VersionMeta : Type 0 where
  pub record_id : ℕ
  pub version_id : ℕ
  pub seq : ℕ
  pub label : Option String
  pub content_hash : ℕ
  pub created_at : ℕ
  pub changed : List String
  pub badges : List String
  pub visibility : Visibility

abbrev pub version_meta : Visibility → VersionRow → VersionMeta
version_meta visibility v = record {
  record_id = v.record_id;
  version_id = v.version_id;
  seq = v.seq;
  label = v.label;
  content_hash = v.content_hash;
  created_at = v.created_at;
  changed = v.changed;
  badges = v.badges;
  visibility = visibility;
}

-- `crate::relations::visible_to`
unfoldable pub visible_to : String → String → List String → Bool
visible_to visibility ns caller = str_eq visibility "public" || contains caller ns

abbrev pub is_record : RecordType → String → String → RecordRow → Bool
is_record type ns name r = str_eq r.type (type_str type) && str_eq r.ns ns && str_eq r.name name

unfoldable pub find_record : RecordType → String → String → List RecordRow → Option RecordRow
unfolding type_str
find_record type ns name records = find (is_record type ns name) records

-- `FOR UPDATE` keeps every other transaction on the record away until this one ends.
unfoldable pub lock_record : RecordType → String → String → Tx RecordRow
lock_record type ns name =
    fetch (λ db. find_record type ns name db.records) StoreError.record_not_found

abbrev newer : VersionRow → Option VersionRow → Option VersionRow
newer v none = some v
newer v (some w) = if ltb v.seq w.seq then some w else some v

-- `ORDER BY seq DESC LIMIT 1`
unfoldable pub newest : List VersionRow → Option VersionRow
newest [] = none
newest (v ∷ vs) = newer v (newest vs)

abbrev pub is_live : VersionRow → Bool
is_live v = not (is_some v.tombstoned_at)

abbrev pub is_live_of : ℕ → VersionRow → Bool
is_live_of record_id v = v.record_id == record_id && is_live v

unfoldable pub latest_live : ℕ → List VersionRow → Option VersionRow
latest_live record_id versions = newest (select_where (is_live_of record_id) versions)

abbrev pub is_version : ℕ → ℕ → VersionRow → Bool
is_version record_id seq v = v.record_id == record_id && v.seq == seq

abbrev pub has_label : Option String → String → Bool
has_label none label = false
has_label (some l) label = str_eq l label

abbrev pub is_labelled : ℕ → String → VersionRow → Bool
is_labelled record_id label v = v.record_id == record_id && has_label v.label label

-- `COALESCE(MAX(seq), 0)` over the versions of the record, deleted ones too
unfoldable pub max_seq : ℕ → List VersionRow → ℕ
max_seq record_id [] = 0
max_seq record_id (v ∷ vs) =
    let rest = max_seq record_id vs in
    if v.record_id == record_id && ltb rest v.seq then v.seq else rest

abbrev pub version_subject : RecordType → String → String → ℕ → String
version_subject type ns name seq =
    type_str type +++ ("/" +++ (ns +++ ("/" +++ (name +++ ("@" +++ decimal seq)))))

abbrev or_null : Option String → Value
or_null none = null
or_null (some s) = string s

-- What an audit row of a record's transaction says.
abbrev pub audit_row : Actor → String → String → String → Members → AuditRow
audit_row actor ns action subject detail = record {
  actor = actor;
  ns = some ns;
  action = action;
  subject = some subject;
  detail = some (object detail);
}

unfoldable pub is_valid_label : String → Bool
is_valid_label label = not (str_eq label "" || all_chars is_digit label)

-- `UPDATE versions SET label = NULL WHERE …`
abbrev pub unlabel : ℕ → String → Db → Db
unlabel record_id label db = record db {
  versions =
      update_where (is_labelled record_id label) (λ v. record v { label = none }) db.versions;
}

abbrev pub relabel : ℕ → ℕ → String → Db → Db
relabel record_id seq label db = record db {
  versions =
      update_where (is_version record_id seq) (λ v. record v { label = some label }) db.versions;
}

unfoldable pub set_label : RecordType → String → String → ℕ → String → Actor → Tx VersionMeta
set_label type ns name seq label actor =
    if not (is_valid_label label) then raise StoreError.label_invalid else do
      row ← lock_record type ns name
      execute (unlabel row.id label)
      execute (relabel row.id seq label)
      v ← fetch (λ db. find (is_version row.id seq) db.versions) StoreError.version_not_found
      append (
          audit_row actor ns "label.set" (version_subject type ns name seq)
            (member "label" (string label) end))
      pure (version_meta (parse_visibility row.visibility) v)

unfoldable pub set_visibility : RecordType → String → String → Visibility → Actor → Tx (Unit {0})
set_visibility type ns name visibility actor = do
  row ← lock_record type ns name
  execute (λ db. record db {
    records =
        update_where (λ r. r.id == row.id)
          (λ r. record r { visibility = visibility_str visibility }) db.records;
  })
  append (
      audit_row actor ns "settings.visibility" (type_str type +++ ("/" +++ (ns +++ ("/" +++ name))))
        (member "visibility" (string (visibility_str visibility)) end))

abbrev pub is_live_version : ℕ → ℕ → VersionRow → Bool
is_live_version record_id seq v = is_version record_id seq v && is_live v

abbrev pub bury_version : ℕ → TombstoneRequest → VersionRow → VersionRow
bury_version now request v = record v {
  tombstoned_at = some now;
  tombstone_reason = some (reason_str request.reason);
  tombstone_note = request.note;
  body = none;
}

-- Why no live version was there to bury.
abbrev pub no_live_version : ℕ → ℕ → Tx VersionRow
no_live_version record_id seq db =
    if is_some (find (is_version record_id seq) db.versions)
    then raise StoreError.already_tombstoned db
    else raise StoreError.version_not_found db

abbrev pub found_live : ℕ → ℕ → Option VersionRow → Tx VersionRow
found_live record_id seq (some v) = pure v
found_live record_id seq none = no_live_version record_id seq

unfoldable pub live_version : ℕ → ℕ → Tx VersionRow
live_version record_id seq db =
    found_live record_id seq (find (is_live_version record_id seq) db.versions) db

abbrev pub bury : ℕ → ℕ → ℕ → ℕ → TombstoneRequest → Db → Db
bury now record_id seq version_id request db = record db {
  versions = update_where (is_live_version record_id seq) (bury_version now request) db.versions;
  attachment_refs = delete_where (λ a. a.version_id == version_id) db.attachment_refs;
}

unfoldable pub tombstone :
    Crates → ℕ → RecordType → String → String → ℕ → TombstoneRequest → Actor → Tx VersionMeta
tombstone c now type ns name seq request actor = do
  row ← lock_record type ns name
  v ← live_version row.id seq
  execute (bury now row.id seq v.version_id request)
  append (
      audit_row actor ns "version.tombstone" (version_subject type ns name seq) (
        member "version_id" (string (c.uuid_text v.version_id)) (
          member "reason" (string (reason_str request.reason))
            (member "note" (or_null request.note) end))))
  pure (version_meta (parse_visibility row.visibility) v)

abbrev pub has_id : ℕ → VersionRow → Bool
has_id version_id v = v.version_id == version_id

abbrev pub rebadge : List String → VersionRow → VersionRow
rebadge badges v = record v { badges = badges }

-- crates/evalhub-store/src/registry.rs: what the job that recomputes badges writes.
unfoldable pub set_badges : ℕ → List String → Tx (Unit {0})
set_badges version_id badges =
    execute
      (λ db. record db { versions = update_where (has_id version_id) (rebadge badges) db.versions })
