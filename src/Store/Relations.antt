-- ===== src/Store/Relations.antt =====
-- crates/evalhub-store/src/relations.rs: the edges between versions, as they are added and as a
-- reader sees them. A record is a Card or an Eval, and one of each at most has a name.
pub mod Laws
pub mod Private
pub mod Parsed
use evalhub.Base.{
  ℕ, ◌^◌, String, Bool, true, false, not, ◌&&◌, ◌||◌, Option, none, some, List, [], ◌∷◌, ◌++◌, map,
  ltb, ◌==◌, if◌then◌else◌, str_eq, is_some, ◌>>=◌ as and_then,
}
use evalhub.Base.Lists.{contains, find, filter_map, opt_cons}
use evalhub.Base.Text.{◌+++◌, has_char, all_chars, split_once, rsplit_once, strip_prefix}
use evalhub.Base.Decimal.{decimal, is_digit, digits_value}
use evalhub.Json.{Value, string, end, member}
use evalhub.Schema.{ErrorEntry}
use evalhub.Core.Report.{sort}
use evalhub.Store.Rows.{select_where}
use evalhub.Store.Db.{
  RecordRow, VersionRow, RelationRow, Actor, Db, StoreError, Tx, ◌>>=◌, ◌>>◌, pure, raise, fetch,
  execute, append,
}
use evalhub.Store.Db.Crates.{Crates}
use evalhub.Store.Records.{
  card, eval, RecordType, visible_to, find_record, is_version, latest_live, audit_row,
}
use evalhub.Store.Records.CardRuns.{uses_eval_type}
use evalhub.Store.UsedSet.{UsesEval, runs_of, contains_id, lock_evals, fix}
use evalhub.Store.UsedSet

pub data RelationTarget : Type 0 where
  version : (ns name : String) (seq : ℕ) → RelationTarget
  external : String → RelationTarget

abbrev without_plus : String → Option String → String
without_plus s (some rest) = rest
without_plus s none = s

-- `seq.parse::<i32>().ok().filter(|n| *n >= 1)`
unfoldable pub parse_seq : String → Option ℕ
parse_seq s =
    let digits = without_plus s (strip_prefix "+" s) in
    let n = digits_value 0 digits in
    if (not (str_eq digits "") && all_chars is_digit digits) && (ltb 0 n && ltb n (2 ^ 31))
    then some n
    else none

abbrev unless_bad : String → String → ℕ → Option RelationTarget
unless_bad ns name seq =
    if str_eq ns "" || (str_eq name "" || has_char b'/' name)
    then none
    else some (version ns name seq)

-- `RelationTarget::parse`
unfoldable pub parse : String → Option RelationTarget
parse s =
    if is_some (strip_prefix "external:" s) || is_some (strip_prefix "hf:" s)
    then some (external s)
    else and_then (rsplit_once b'@' s) λ halves.
      and_then (parse_seq halves.1)
        λ seq. and_then (split_once b'/' halves.0) λ id. unless_bad id.0 id.1 seq

abbrev pub text_of : String → String → ℕ → String
text_of ns name seq = ns +++ ("/" +++ (name +++ ("@" +++ decimal seq)))

-- `RelationTarget::text`
unfoldable pub text : RelationTarget → String
text (version ns name seq) = text_of ns name seq
text (external s) = s

pub record VersionInfo : Type 0 where
  pub version_id : ℕ
  pub record_id : ℕ
  pub ns : String
  pub name : String
  pub seq : ℕ
  pub record_type : String
  pub tombstoned : Bool
  pub visibility : String
  pub content_hash : ℕ

-- A version as a reader sees it; where it is not `visible`, only the id and the hash are shown.
pub record TargetVersion : Type 0 where
  pub version_id : ℕ
  pub ns : String
  pub name : String
  pub seq : ℕ
  pub record_type : String
  pub tombstoned : Bool
  pub visible : Bool
  pub content_hash : ℕ

pub data ResolvedTarget : Type 0 where
  hub : TargetVersion → ResolvedTarget
  unresolved outside : String → ResolvedTarget

pub record StoredRelation : Type 0 where
  pub from : ResolvedTarget
  pub relation_type : String
  pub to : ResolvedTarget
  pub attrs : Option Value

unfoldable pub visible : VersionInfo → List String → Bool
visible info caller = visible_to info.visibility info.ns caller

unfoldable pub target : VersionInfo → List String → ResolvedTarget
target info caller = hub (record {
  version_id = info.version_id;
  ns = info.ns;
  name = info.name;
  seq = info.seq;
  record_type = info.record_type;
  tombstoned = info.tombstoned;
  visible = visible info caller;
  content_hash = info.content_hash;
})

abbrev info_of : VersionRow → RecordRow → VersionInfo
info_of v r = record {
  version_id = v.version_id;
  record_id = v.record_id;
  ns = r.ns;
  name = r.name;
  seq = v.seq;
  record_type = r.type;
  tombstoned = is_some v.tombstoned_at;
  visibility = r.visibility;
  content_hash = v.content_hash;
}

unfoldable pub version_info : Db → ℕ → Option VersionInfo
version_info db id =
    and_then (find (λ v. v.version_id == id) db.versions)
      λ v. and_then (find (λ r. r.id == v.record_id) db.records) λ r. some (info_of v r)

-- The version of the Card, or of the Eval, of that name.
unfoldable pub resolve_typed :
    Db → RecordType → String → String → ℕ → List String → Option VersionRow
resolve_typed db type ns name seq caller =
    and_then (find_record type ns name db.records) λ r.
      if visible_to r.visibility ns caller then find (is_version r.id seq) db.versions else none

abbrev first_of : Option VersionRow → Option VersionRow → Option ℕ
first_of (some v) _ = some v.version_id
first_of none (some v) = some v.version_id
first_of none none = none

-- `ORDER BY r.type`, and the first row that the caller may see
unfoldable pub resolve_ref : Db → String → String → ℕ → List String → Option ℕ
resolve_ref db ns name seq caller =
    first_of (resolve_typed db card ns name seq caller) (resolve_typed db eval ns name seq caller)

unfoldable pub latest_of_record : Db → ℕ → Option ℕ
latest_of_record db record_id = and_then (latest_live record_id db.versions) λ v. some v.version_id

abbrev target_or : String → List String → Option VersionInfo → ResolvedTarget
target_or s caller (some info) = target info caller
target_or s caller none = unresolved s

abbrev by_target : Db → List String → String → Option RelationTarget → ResolvedTarget
by_target db caller s (some (version ns name seq)) =
    target_or s caller (and_then (resolve_ref db ns name seq caller) (version_info db))
by_target db caller s (some (external _)) = outside s
by_target db caller s none = unresolved s

abbrev or_empty : Option String → String
or_empty (some s) = s
or_empty none = ""

abbrev stored_or_text : Db → List String → Option String → Option VersionInfo → ResolvedTarget
stored_or_text db caller stored (some info) = target info caller
stored_or_text db caller stored none =
    by_target db caller (or_empty stored) (parse (or_empty stored))

-- A stored pair `(to_version_id, to_external)`, for a reader.
unfoldable pub resolve_stored : Db → Option ℕ → Option String → List String → ResolvedTarget
resolve_stored db id stored caller = stored_or_text db caller stored (and_then id (version_info db))

abbrev is_eval_edge : Db → ℕ → ℕ → RelationRow → Bool
is_eval_edge db from_id record_id rel =
    (rel.from_version_id == from_id && str_eq rel.type uses_eval_type)
    && is_some (
        and_then rel.to_version_id
          λ to. find (λ v. v.version_id == to && v.record_id == record_id) db.versions)

abbrev use_of : ℕ → Option String → Option Value → UsesEval
use_of record_id path attrs = record {
  eval_record_id = record_id;
  runs = runs_of attrs;
  runs_path = path;
}

-- Every edge of the version into the Eval, the new one last.
unfoldable pub all_uses : Db → ℕ → ℕ → Option Value → List UsesEval
all_uses db from_id record_id attrs =
    map (λ rel. use_of record_id none rel.attrs)
      (select_where (is_eval_edge db from_id record_id) db.relations)
    ++ use_of record_id (some "/attrs/runs") attrs ∷ []

abbrev pub record_used : ℕ → List (ℕ × UsedSet.UsedSet) → List ErrorEntry → Tx Bool
record_used from_id used [] = do
  execute (λ db. record db { card_eval_runs = UsedSet.insert from_id used db.card_eval_runs })
  pure true
record_used from_id used (e ∷ es) = raise (StoreError.card_runs_rejected (sort (e ∷ es)))

abbrev pub extend_visible : VersionInfo → ℕ → Option Value → List String → Tx Bool
extend_visible from record_id attrs writer_ns db =
    if contains_id (lock_evals db (record_id ∷ []) writer_ns) record_id
    then (let (used, errors) = fix db.runs (all_uses db from.version_id record_id attrs) in
        record_used from.version_id used errors db)
    else pure false db

abbrev pub extend_target : VersionInfo → Option Value → List String → Option VersionInfo → Tx Bool
extend_target from attrs writer_ns none = pure true
extend_target from attrs writer_ns (some t) =
    if not (str_eq t.record_type "eval") then pure true else do
      locked ← fetch (λ db. find (λ r. r.id == from.record_id) db.records) StoreError.query
      extend_visible from t.record_id attrs writer_ns

-- `false` where the Eval is no longer to be seen under its lock.
unfoldable pub extend_used_set : VersionInfo → ℕ → Option Value → List String → Tx Bool
extend_used_set from to attrs writer_ns db =
    extend_target from attrs writer_ns (version_info db to) db

abbrev pub extended : VersionInfo → String → Option ℕ → Option Value → List String → Tx Bool
extended from type none attrs writer_ns = pure true
extended from type (some to) attrs writer_ns =
    if str_eq type uses_eval_type && str_eq from.record_type "card"
    then extend_used_set from to attrs writer_ns
    else pure true

abbrev kept_id : Bool → Option ℕ → Option ℕ
kept_id true id = id
kept_id false id = none

abbrev stored_text : RelationTarget → Option ℕ → Option String
stored_text t (some id) = none
stored_text t none = some (text t)

abbrev id_or_text : Crates → Option ℕ → Option String → String
id_or_text c (some id) stored = c.uuid_text id
id_or_text c none stored = or_empty stored

abbrev resolved_to : Db → RelationTarget → List String → Option ℕ
resolved_to db (version ns name seq) caller = resolve_ref db ns name seq caller
resolved_to db (external s) caller = none

abbrev pub with_own : List String → String → List String
with_own writer_ns ns = if contains writer_ns ns then writer_ns else writer_ns ++ ns ∷ []

module _ (c : Crates) where
  -- The transaction: the used set, the edge and the audit row.
  unfoldable pub write_edge :
      VersionInfo
      → String
      → RelationTarget
      → Option ℕ
      → Option Value
      → Actor
      → List String
      → Tx (Option ℕ)
  write_edge from type t to attrs actor writer_ns = do
    seen ← extended from type to attrs writer_ns
    execute (λ db. record db {
      relations =
          db.relations
          ++ record {
            from_version_id = from.version_id;
            type = type;
            to_version_id = kept_id seen to;
            to_external = stored_text t (kept_id seen to);
            attrs = attrs;
          }
            ∷ [];
    })
    append (
        audit_row actor from.ns "relation.add"
          (from.record_type +++ ("/" +++ text_of from.ns from.name from.seq))
          (member "type" (string type) (
            member "to" (string (id_or_text c (kept_id seen to) (stored_text t (kept_id seen to))))
              end)))
    pure (kept_id seen to)

  abbrev pub add_from :
      Db
      → VersionInfo
      → String
      → RelationTarget
      → Option Value
      → Actor
      → List String
      → Tx StoredRelation
  add_from earlier from type t attrs actor writer_ns = do
    to ← write_edge from type t (resolved_to earlier t writer_ns) attrs actor writer_ns
    (λ db.
        pure
          (record {
            from = target from writer_ns;
            relation_type = type;
            to = resolve_stored db to (stored_text t to) writer_ns;
            attrs = attrs;
          })
          db)

  abbrev pub add_to :
      Db
      → String
      → RelationTarget
      → Option Value
      → Actor
      → List String
      → ℕ
      → Option VersionInfo
      → Tx StoredRelation
  add_to earlier type t attrs actor writer_ns from_id none =
      raise (StoreError.source_version_unknown from_id)
  add_to earlier type t attrs actor writer_ns from_id (some from) =
      add_from earlier from type t attrs actor (with_own writer_ns from.ns)

  -- `earlier` is what the reads before the transaction saw, without a lock.
  unfoldable pub add :
      Db → ℕ → String → RelationTarget → Option Value → Actor → List String → Tx StoredRelation
  unfolding write_edge
  add earlier from_id type t attrs actor writer_ns =
      add_to earlier type t attrs actor writer_ns from_id (version_info earlier from_id)
