-- ===== src/Store/Tests/RecordTests.antt =====
-- The theorems on records and their versions at concrete inputs.
use evalhub.Base.{◌≡◌, refl, true, false, none, some, List, [], ◌∷◌}
use evalhub.Store.Records.Ops.{
  Op, set_label, set_badges, tombstone, run_ops, run_ops-IsWellformed, run_ops-Stays,
}
use evalhub.Store.Tests.Tables.{
  crates, bench_body, writer, request, one_eval, second, first_version, no_badges,
}
use evalhub.Store.Records.{eval, private, version_meta, audit_row}
use evalhub.Store.Records.Wellformed.{IsWellformed}
use evalhub.Store.Records.Moves.{Stays}
use evalhub.Store.Records.Ops
use evalhub.Json.{string, end, member}
use evalhub.Store.Db.{VersionRow, Db, ok}
use evalhub.Store.Records.Ingest.{create_or_append}
use evalhub.Store.Records.Posts.{CreateOutcome, created, existing}
use evalhub.Store.Records.Ingest.Steps.{meta_of}
use evalhub.Store.Records.Ingest.Laws.{create_or_append_twice}

abbrev requests : List Op
requests =
    Ops.create_or_append 6 2 11 second
    ∷ set_label eval "lab" "bench" 1 "v2" writer
    ∷ set_badges 10 ("reproducible" ∷ [])
    ∷ tombstone 7 eval "lab" "bench" 1 request writer
    ∷ []

run_ops-IsWellformed_example : IsWellformed (run_ops crates no_badges requests one_eval).versions
run_ops-IsWellformed_example =
    run_ops-IsWellformed crates no_badges requests one_eval
      (record { distinct = (tt, tt); bodies = (refl, tt) })

run_ops-Stays_example :
    Stays 1 1 first_version (run_ops crates no_badges requests one_eval).versions
run_ops-Stays_example = run_ops-Stays crates no_badges 1 1 first_version requests one_eval refl

abbrev second_version : VersionRow
second_version = record {
  version_id = 11;
  record_id = 1;
  seq = 2;
  label = some "v2";
  content_hash = 8;
  body = some bench_body;
  changed = [];
  badges = [];
  created_at = 6;
  tombstoned_at = none;
  tombstone_reason = none;
  tombstone_note = none;
}

abbrev posted : CreateOutcome
posted =
    created (version_meta private second_version) (record {
      all_refs_resolved = true;
      harness_registered = false;
      all_metrics_registered = true;
    })

abbrev after : Db
after = record one_eval {
  versions = first_version ∷ second_version ∷ [];
  audit =
      audit_row writer "lab" "version.append" "eval/lab/bench@2"
        (member "version_id" (string "id") (member "content_hash" (string "07") end))
      ∷ [];
}

-- The tables after the post, with the audit log cut since.
abbrev since : Db
since = record after { audit = [] }

create_or_append_twice_example :
    create_or_append crates no_badges 9 3 12 second since ≡ ok (existing (meta_of posted), since)
unfolding create_or_append evalhub.Store.Db.◌>>=◌ evalhub.Store.Records.Posts.insert_record
    evalhub.Store.Records.find_record evalhub.Store.Db.pure evalhub.Store.Records.Ingest.read_latest
    evalhub.Store.Records.Ingest.unless_same evalhub.Store.Records.latest_live
    evalhub.Store.Records.newest evalhub.Store.Rows.select_where
    evalhub.Store.Records.Ingest.append_version evalhub.Store.Db.◌>>◌
    evalhub.Store.Records.Posts.missing_attachments evalhub.Store.Records.Posts.missing_from
    evalhub.Store.Records.Posts.card_runs evalhub.Store.Records.Ingest.insert_version
    evalhub.Store.Records.Ingest.next_version evalhub.Base.Text.all_chars
    evalhub.Base.Decimal.decimal evalhub.Base.Decimal.digit evalhub.Store.Db.append
    evalhub.Store.Db.execute evalhub.Store.Records.Posts.all_metrics_registered
    evalhub.Store.Records.Posts.changed_keys evalhub.Store.Records.Posts.differing
    evalhub.Store.Records.Posts.edges_of evalhub.Store.Records.Posts.harness_registered
    evalhub.Store.Records.Posts.insert_key evalhub.Store.Records.Ingest.insert_sides
    evalhub.Store.Records.Posts.refs_resolved evalhub.Store.Records.max_seq
    evalhub.Store.Records.parse_visibility evalhub.Store.Records.type_str evalhub.Json.get
    evalhub.Base.Text.cmp evalhub.Store.UsedSet.insert
create_or_append_twice_example =
    create_or_append_twice crates no_badges 6 2 11 9 3 12 second one_eval after since posted refl
      refl (λ row found. refl)
