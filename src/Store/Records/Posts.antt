-- ===== src/Store/Records/Posts.antt =====
-- crates/evalhub-store/src/records.rs: a new version as it is posted, and what is looked up for it.
use evalhub.Base.{
  ℕ, String, Bool, true, false, not, ◌&&◌, ◌||◌, Option, none, some, List, [], ◌∷◌, ◌++◌, map,
  if◌then◌else◌, str_eq, is_some, ◌>>=◌ as and_then,
}
use evalhub.Base.Lists.{any, contains}
use evalhub.Base.Text.{cmp, is_gt, split_once}
use evalhub.Json.{Value, Float, Members, end, get, get_key, as_str, as_object, keys}
use evalhub.Store.Db.{RecordRow, Actor, Db, StoreError, Result, ok, err, Tx, pure, raise}
use evalhub.Store.Db.Crates.{Crates}
use evalhub.Store.Records.{RecordType, card, eval, type_str, VersionMeta, find_record}
use evalhub.Store.Records.CardRuns.{
  RelationTarget, version, external, NewRelation, Edge, resolve_target, demote, CardRuns,
  fix_card_runs,
}
use evalhub.Store.Runs.Checks.{is_ready}
use evalhub.Store.UsedSet

pub record NewResult : Type 0 where
  pub ordinal : ℕ
  pub metric : String
  pub aggregation : String
  pub value : Float
  pub n : Option ℕ
  pub by : Option Value

pub record NewAttachmentRef : Type 0 where
  pub path : String
  pub sha256 : ℕ

pub record NewVersion : Type 0 where
  pub record_type : RecordType
  pub ns : String
  pub name : String
  pub body : Value
  pub content_hash : ℕ
  pub label : Option String
  pub actor : Actor
  pub readable_ns : List String
  pub fingerprints : List (String × ℕ)
  pub results : List NewResult
  pub relations : List NewRelation
  pub attachments : List NewAttachmentRef

pub record IngestFacts : Type 0 where
  pub all_refs_resolved : Bool
  pub harness_registered : Bool
  pub all_metrics_registered : Bool

pub data CreateOutcome : Type 0 where
  created : VersionMeta → IngestFacts → CreateOutcome
  existing : VersionMeta → CreateOutcome

abbrev pub new_record : ℕ → NewVersion → RecordRow
new_record id new = record {
  id = id;
  type = type_str new.record_type;
  ns = new.ns;
  name = new.name;
  visibility = "private";
  runs_hash = none;
}

abbrev pub record_or_new : ℕ → NewVersion → Option RecordRow → Tx RecordRow
record_or_new id new (some r) db = pure r db
record_or_new id new none db =
    if contains db.namespaces new.ns
    then pure (new_record id new) (record db { records = db.records ++ new_record id new ∷ [] })
    else raise (StoreError.namespace_unknown new.ns) db

-- `INSERT … ON CONFLICT DO NOTHING`, where the namespace must have a row, and the lock.
unfoldable pub insert_record : ℕ → NewVersion → Tx RecordRow
insert_record id new db =
    record_or_new id new (find_record new.record_type new.ns new.name db.records) db

unfoldable pub missing_from : Db → List ℕ → List NewAttachmentRef → List ℕ
missing_from db seen [] = []
missing_from db seen (a ∷ rest) =
    if not (is_ready db.attachments a.sha256) && not (UsedSet.contains_id seen a.sha256)
    then a.sha256 ∷ missing_from db (a.sha256 ∷ seen) rest
    else missing_from db seen rest

-- Each digest that is not ready, once, in the order of the references.
unfoldable pub missing_attachments : Db → List NewAttachmentRef → List ℕ
missing_attachments db attachments = missing_from db [] attachments

abbrev pub none_missing : List ℕ → Tx (Unit {0})
none_missing [] = pure tt
none_missing (sha ∷ shas) = raise (StoreError.attachment_missing (sha ∷ shas))

-- The namespaces that the writer covers, and the record's own.
abbrev readable_with : NewVersion → List String
readable_with new =
    if contains new.readable_ns new.ns then new.readable_ns else new.readable_ns ++ new.ns ∷ []

abbrev edge_of : Db → List String → NewRelation → Edge
edge_of db readable_ns rel = (rel, resolve_target db readable_ns rel.target)

abbrev is_external : RelationTarget → Bool
is_external (external s) = true
is_external (version ns name seq type) = false

unfoldable pub refs_resolved : List Edge → Bool
refs_resolved [] = true
refs_resolved ((rel, target) ∷ edges) =
    (is_some target || is_external rel.target) && refs_resolved edges

-- Step 5: what the relations resolve to; a Card's edges are looked at again under the locks.
unfoldable pub edges_of : Db → NewVersion → List Edge
edges_of db new =
    let edges = map (edge_of db (readable_with new)) new.relations in
    elim new.record_type [ card ↦ demote db (readable_with new) edges | eval ↦ edges ]

abbrev no_card_runs : CardRuns
no_card_runs = record { used = []; run_results = [] }

abbrev pub or_raise : Result CardRuns → Tx CardRuns
or_raise (ok runs) = pure runs
or_raise (err e) = raise e

abbrev pub fixed_runs : Crates → Value → List Edge → RecordType → Tx CardRuns
fixed_runs c body edges eval db = pure no_card_runs db
fixed_runs c body edges card db = or_raise (fix_card_runs c db body edges) db

unfoldable pub card_runs : Crates → NewVersion → List Edge → Tx CardRuns
card_runs c new edges db = fixed_runs c new.body edges new.record_type db

abbrev registered_harness : Db → Option String → Option String → Bool
registered_harness db (some name) (some wanted) = elim (split_once b'/' name) [
  | none ↦ false
  | some (ns, id) ↦
      any
        (λ r.
          (str_eq r.kind "harnesses" && str_eq r.ns ns)
          && (str_eq r.id id && str_eq r.version wanted))
        db.registry
]
registered_harness db _ _ = false

unfoldable pub harness_registered : Db → Value → Bool
harness_registered db body = elim (get_key body "harness") [
  | none ↦ false
  | some harness ↦
      registered_harness db (and_then (get_key harness "name") as_str)
        (and_then (get_key harness "version") as_str)
]

abbrev metric_registered : Db → String → Bool
metric_registered db metric = elim (split_once b'/' metric) [
  | none ↦ false
  | some (ns, id) ↦
      any (λ r. str_eq r.kind "metrics" && (str_eq r.ns ns && str_eq r.id id)) db.registry
]

unfoldable pub all_metrics_registered : Db → List NewResult → Bool
all_metrics_registered db [] = true
all_metrics_registered db (r ∷ results) =
    metric_registered db r.metric && all_metrics_registered db results

-- `keys.sort(); keys.dedup()`
unfoldable pub insert_key : String → List String → List String
insert_key k [] = k ∷ []
insert_key k (x ∷ xs) =
    if str_eq k x then x ∷ xs else if is_gt (cmp k x) then x ∷ insert_key k xs else k ∷ x ∷ xs

abbrev members_of : Option Value → Members
members_of none = end
members_of (some v) = elim (as_object v) [ none ↦ end | some ms ↦ ms ]

abbrev same_option : (Value → Value → Bool) → Option Value → Option Value → Bool
same_option eq none none = true
same_option eq (some a) (some b) = eq a b
same_option eq _ _ = false

unfoldable pub differing : (Value → Value → Bool) → Members → Members → List String → List String
differing eq prev next [] = []
differing eq prev next (k ∷ ks) =
    if same_option eq (get prev k) (get next k)
    then differing eq prev next ks
    else insert_key k (differing eq prev next ks)

-- The keys at which two bodies differ, in order, each once.
unfoldable pub changed_keys : Crates → Option Value → Value → List String
changed_keys c previous next =
    let prev = members_of previous in
    let now = members_of (some next) in differing c.same_value prev now (keys prev ++ keys now)
