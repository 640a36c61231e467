-- ===== src/Store/Records/Reads.antt =====
-- crates/evalhub-store/src/records.rs: what a reader sees of a record and its versions.
use evalhub.Base.{
  ℕ, String, ◌&&◌, Option, none, some, List, [], ◌∷◌, map, ltb, ◌==◌, if◌then◌else◌, ◌>>=◌,
}
use evalhub.Base.Lists.{find}
use evalhub.Json.{Value}
use evalhub.Store.Rows.{select_where}
use evalhub.Store.Db.{RecordRow, VersionRow, Db}
use evalhub.Store.Records.{
  RecordType, TombstoneReason, parse_reason, Tombstone, VersionMeta, version_meta, parse_visibility,
  visible_to, find_record, latest_live, is_live, is_version, is_labelled,
}

pub record StoredVersion : Type 0 where
  pub meta : VersionMeta
  pub body : Option Value
  pub tombstone : Option Tombstone

pub record VersionSummary : Type 0 where
  pub meta : VersionMeta
  pub tombstone : Option Tombstone

abbrev reason_or_other : Option TombstoneReason → TombstoneReason
reason_or_other none = TombstoneReason.other
reason_or_other (some reason) = reason

-- The tombstone of a row, from its three columns.
unfoldable pub read_tombstone : Option ℕ → Option String → Option String → Option Tombstone
read_tombstone none reason remark = none
read_tombstone (some at) reason remark =
    some (record { at = at; reason = reason_or_other (reason >>= parse_reason); note = remark })

unfoldable pub into_stored : RecordRow → VersionRow → StoredVersion
into_stored r v = record {
  meta = version_meta (parse_visibility r.visibility) v;
  body = v.body;
  tombstone = read_tombstone v.tombstoned_at v.tombstone_reason v.tombstone_note;
}

unfoldable pub into_summary : RecordRow → VersionRow → VersionSummary
into_summary r v = record {
  meta = version_meta (parse_visibility r.visibility) v;
  tombstone = read_tombstone v.tombstoned_at v.tombstone_reason v.tombstone_note;
}

-- The record, where the caller may see it.
unfoldable pub visible_record : Db → RecordType → String → String → List String → Option RecordRow
visible_record db type ns name caller = find_record type ns name db.records >>= λ r.
    if visible_to r.visibility r.ns caller then some r else none

abbrev stored_of : RecordRow → Option VersionRow → Option StoredVersion
stored_of r none = none
stored_of r (some v) = some (into_stored r v)

unfoldable pub get_latest : Db → RecordType → String → String → List String → Option StoredVersion
get_latest db type ns name caller =
    visible_record db type ns name caller >>= λ r. stored_of r (latest_live r.id db.versions)

unfoldable pub get_by_seq :
    Db → RecordType → String → String → ℕ → List String → Option StoredVersion
get_by_seq db type ns name seq caller = visible_record db type ns name caller >>= λ r.
    stored_of r (find (is_version r.id seq) db.versions)

unfoldable pub get_by_label :
    Db → RecordType → String → String → String → List String → Option StoredVersion
get_by_label db type ns name label caller = visible_record db type ns name caller >>= λ r.
    stored_of r (find (is_labelled r.id label) db.versions)

insert_by_seq : VersionRow → List VersionRow → List VersionRow
insert_by_seq v [] = v ∷ []
insert_by_seq v (w ∷ ws) = if ltb w.seq v.seq then w ∷ insert_by_seq v ws else v ∷ w ∷ ws

-- `ORDER BY v.seq ASC`
unfoldable pub order_by_seq : List VersionRow → List VersionRow
unfolding insert_by_seq
order_by_seq [] = []
order_by_seq (v ∷ vs) = insert_by_seq v (order_by_seq vs)

unfoldable pub list_versions :
    Db → RecordType → String → String → List String → Option (List VersionSummary)
list_versions db type ns name caller = visible_record db type ns name caller >>= λ r.
    some (map (into_summary r) (order_by_seq (select_where (λ v. v.record_id == r.id) db.versions)))

abbrev body_of : VersionRow → Option (Value × List String)
body_of v = v.body >>= λ body. some (body, v.badges)

unfoldable pub body_and_badges : Db → ℕ → Option (Value × List String)
body_and_badges db version_id =
    find (λ v. v.version_id == version_id && is_live v) db.versions >>= body_of
