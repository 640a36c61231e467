-- ===== src/Store/Tests/Tables.antt =====
-- Small tables, and bodies that go into them.
use evalhub.Base.{String, true, false, none, some, List, [], ◌∷◌}
use evalhub.Json.{Value, object, string, end, member}
use evalhub.Store.Db.{RecordRow, VersionRow, RunRow, Actor, Db}
use evalhub.Store.Db.Crates.{Crates}
use evalhub.Store.Records.{eval, withdrawn, TombstoneRequest}
use evalhub.Store.Records.Posts.{NewVersion, IngestFacts}

-- Every document fits, and every value has the same digest.
abbrev pub crates : Crates
crates = record {
  validators = record { record_errors = λ s v. []; run_errors = λ v. [] };
  excluded = λ f. [];
  digest = λ v. some 7;
  canonical = some;
  as_hex = λ n. "07";
  decode_hex = λ s. none;
  decode_bytes = λ s. some (1 ∷ []);
  uuid_text = λ n. "id";
  parse_from_rfc3339 = λ s. none;
  to_rfc3339 = λ t. "2026-01-01T00:00:00Z";
  as_f64 = λ n. record { negative = false; mantissa = 1; scaled_down = false; exponent = 0 };
  same_value = λ a b. true;
}

abbrev pub writer : Actor
writer = record { user_id = some 1; token_id = none }

abbrev pub request : TombstoneRequest
request = record { reason = withdrawn; note = none }

abbrev pub bench_body : Value
bench_body = object (member "name" (string "bench") end)

abbrev pub bench : RecordRow
bench = record {
  id = 1;
  type = "eval";
  ns = "lab";
  name = "bench";
  visibility = "private";
  runs_hash = none;
}

abbrev pub first_version : VersionRow
first_version = record {
  version_id = 10;
  record_id = 1;
  seq = 1;
  label = none;
  content_hash = 7;
  body = some bench_body;
  changed = "name" ∷ [];
  badges = [];
  created_at = 5;
  tombstoned_at = none;
  tombstone_reason = none;
  tombstone_note = none;
}

-- A namespace with an Eval that has one version and the given runs.
abbrev pub tables : RecordRow → List RunRow → Db
tables row runs = record {
  namespaces = "lab" ∷ [];
  records = row ∷ [];
  versions = first_version ∷ [];
  fingerprints = [];
  results = [];
  relations = [];
  attachments = [];
  attachment_refs = [];
  runs = runs;
  run_metrics = [];
  run_attachment_refs = [];
  run_fingerprints = [];
  run_results = [];
  card_eval_runs = [];
  registry = [];
  audit = [];
}

abbrev pub one_eval : Db
one_eval = tables bench []

abbrev pub run_body : Value
run_body = object (member "status" (string "completed") end)

-- A run that was deleted.
abbrev pub gone : RunRow
gone = record {
  record_id = 1;
  run_id = "r1";
  status = "completed";
  error_kind = none;
  started_at = none;
  ended_at = none;
  body = none;
  content_hash = 7;
  created_at = 6;
  updated_at = 8;
  archived_at = none;
  tombstoned_at = some 8;
  tombstone_reason = some "withdrawn";
  tombstone_note = none;
}

abbrev pub with_gone : Db
with_gone = tables (record bench { runs_hash = some 7 }) (gone ∷ [])

abbrev pub second : NewVersion
second = record {
  record_type = eval;
  ns = "lab";
  name = "bench";
  body = bench_body;
  content_hash = 8;
  label = some "v2";
  actor = writer;
  readable_ns = [];
  fingerprints = [];
  results = [];
  relations = [];
  attachments = [];
}

abbrev pub no_badges : IngestFacts → List String
no_badges facts = []
