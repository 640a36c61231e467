-- ===== src/Store/Db.antt =====
-- crates/evalhub-store: the tables of migrations/0001_init.sql and 0003_runs.sql that the
-- transactions on records and runs read and write, and the transactions themselves.
pub mod Crates
pub mod After
use evalhub.Base.{ℕ, String, Option, none, some, List, [], ◌∷◌, ◌++◌}
use evalhub.Json.{Value, Float}
use evalhub.Schema.{ErrorEntry}

-- A UUID and a digest are their values as numbers, an instant is a number.
pub record RecordRow : Type 0 where
  pub id : ℕ
  pub type : String
  pub ns : String
  pub name : String
  pub visibility : String
  pub runs_hash : Option ℕ

pub record VersionRow : Type 0 where
  pub version_id : ℕ
  pub record_id : ℕ
  pub seq : ℕ
  pub label : Option String
  pub content_hash : ℕ
  pub body : Option Value
  pub changed : List String
  pub badges : List String
  pub created_at : ℕ
  pub tombstoned_at : Option ℕ
  pub tombstone_reason : Option String
  pub tombstone_note : Option String

pub record RunRow : Type 0 where
  pub record_id : ℕ
  pub run_id : String
  pub status : String
  pub error_kind : Option String
  pub started_at : Option ℕ
  pub ended_at : Option ℕ
  pub body : Option Value
  pub content_hash : ℕ
  pub created_at : ℕ
  pub updated_at : ℕ
  pub archived_at : Option ℕ
  pub tombstoned_at : Option ℕ
  pub tombstone_reason : Option String
  pub tombstone_note : Option String

pub record RunMetricRow : Type 0 where
  pub record_id : ℕ
  pub run_id : String
  pub metric : String
  pub value : Float

pub record RunAttachmentRefRow : Type 0 where
  pub record_id : ℕ
  pub run_id : String
  pub sha256 : ℕ
  pub path : String

pub record RunFingerprintRow : Type 0 where
  pub record_id : ℕ
  pub run_id : String
  pub facet : String
  pub fingerprint : ℕ

pub record FingerprintRow : Type 0 where
  pub version_id : ℕ
  pub facet : String
  pub fingerprint : ℕ

pub record ResultRow : Type 0 where
  pub version_id : ℕ
  pub ordinal : ℕ
  pub metric : String
  pub aggregation : String
  pub value : Float
  pub n : Option ℕ
  pub by : Option Value

pub record RelationRow : Type 0 where
  pub from_version_id : ℕ
  pub type : String
  pub to_version_id : Option ℕ
  pub to_external : Option String
  pub attrs : Option Value

pub record AttachmentRow : Type 0 where
  pub sha256 : ℕ
  pub state : String

pub record AttachmentRefRow : Type 0 where
  pub version_id : ℕ
  pub sha256 : ℕ
  pub path : String

-- A Card version's `run_results[]`.
pub record RunResultRow : Type 0 where
  pub version_id : ℕ
  pub ordinal : ℕ
  pub eval_record_id : ℕ
  pub run_id : String
  pub metric : String
  pub value : Option Float
  pub label : Option String
  pub by : Option Value

-- The used set of a Card version, as it was when the version was posted.
pub record CardEvalRunRow : Type 0 where
  pub card_version_id : ℕ
  pub eval_record_id : ℕ
  pub run_id : String
  pub content_hash : ℕ

pub record RegistryRow : Type 0 where
  pub kind : String
  pub ns : String
  pub id : String
  pub version : String

pub record Actor : Type 0 where
  pub user_id : Option ℕ
  pub token_id : Option ℕ

pub record AuditRow : Type 0 where
  pub actor : Actor
  pub ns : Option String
  pub action : String
  pub subject : Option String
  pub detail : Option Value

pub record Db : Type 0 where
  pub namespaces : List String
  pub records : List RecordRow
  pub versions : List VersionRow
  pub fingerprints : List FingerprintRow
  pub results : List ResultRow
  pub relations : List RelationRow
  pub attachments : List AttachmentRow
  pub attachment_refs : List AttachmentRefRow
  pub runs : List RunRow
  pub run_metrics : List RunMetricRow
  pub run_attachment_refs : List RunAttachmentRefRow
  pub run_fingerprints : List RunFingerprintRow
  pub run_results : List RunResultRow
  pub card_eval_runs : List CardEvalRunRow
  pub registry : List RegistryRow
  pub audit : List AuditRow

-- One element of a batch that failed, with its place and what is wrong with it.
pub record RunRejection : Type 0 where
  pub index : ℕ
  pub run_id : String
  pub errors : List ErrorEntry

-- `query` is a statement that the database refused, `query_unsupported` a query that has no
-- statement; what it says is left out.
pub data StoreError : Type 0 where
  namespace_unknown : String → StoreError
  record_not_found version_not_found already_tombstoned : StoreError
  label_in_use label_invalid : StoreError
  attachment_missing : List ℕ → StoreError
  source_version_unknown : ℕ → StoreError
  run_not_found run_deleted canonical query query_unsupported registry_core_read_only : StoreError
  namespace_in_use not_an_organisation : String → StoreError
  registry_entry_exists registry_entry_not_found : String → StoreError
  run_cards_unknown : List String → StoreError
  runs_rejected : List RunRejection → StoreError
  card_runs_rejected : List ErrorEntry → StoreError

pub data Result {ℓ} (A : Type ℓ) : Type ℓ where
  ok : A → Result A
  err : StoreError → Result A

-- What follows in a transaction that has not failed: an error rolls the transaction back, so it
-- carries no tables.
abbrev pub Tx : Type 0 → Type 0
Tx A = Db → Result (A × Db)

infixl 5 ◌>>=◌ ◌>>◌
unfoldable pub ◌>>=◌ : {A B : Type 0} → Tx A → (A → Tx B) → Tx B
◌>>=◌ m f db = elim (m db) [ ok (a, after) ↦ f a after | err e ↦ err e ]

unfoldable pub ◌>>◌ : {A B : Type 0} → Tx A → Tx B → Tx B
unfolding ◌>>=◌
m >> k = m >>= λ _. k

unfoldable pub pure : {A : Type 0} → A → Tx A
pure a db = ok (a, db)

unfoldable pub raise : {A : Type 0} → StoreError → Tx A
raise e db = err e

abbrev fetched : {A : Type 0} → Option A → StoreError → Db → Result (A × Db)
fetched none e db = err e
fetched (some a) e db = ok (a, db)

unfoldable pub fetch : {A : Type 0} → (Db → Option A) → StoreError → Tx A
fetch f e db = fetched (f db) e db

unfoldable pub execute : (Db → Db) → Tx (Unit {0})
execute f db = ok (tt, f db)

-- The tables after a transaction: a failed one changes nothing.
unfoldable pub committed : {A : Type 0} → Tx A → Db → Db
committed m db = elim (m db) [ ok (a, after) ↦ after | err e ↦ db ]

-- crates/evalhub-store/src/audit.rs, `append`
unfoldable pub append : AuditRow → Tx (Unit {0})
unfolding execute
append row = execute (λ db. record db { audit = db.audit ++ row ∷ [] })
