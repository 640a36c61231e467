-- ===== src/Store/Tests/RelationTests.antt =====
-- The theorems on relations at concrete inputs.
use evalhub.Base.{
  Bool, ◌⊎◌, inl, inr, Bool-cases, arith, ℕ, String, ◌≡◌, refl, true, false, none, some, List, [],
  ◌∷◌,
}
use evalhub.Base.Lists.{find}
use evalhub.Core.Ids.{parse_relation_target}
use evalhub.Store.Relations.Parsed.{parse-parse_relation_target}
use evalhub.Store.Relations.Private.{IsKeyed, resolve_stored-visible}
use evalhub.Json.{string, end, member}
use evalhub.Store.Db.{RecordRow, VersionRow, RunRow, CardEvalRunRow, Db, ok}
use evalhub.Store.Records.{audit_row}
use evalhub.Store.Relations.{
  parse, resolve_stored, RelationTarget, version, StoredRelation, VersionInfo, add, hub,
  TargetVersion, ResolvedTarget,
}
use evalhub.Store.Relations.Laws.{Grows, add-Grows}
use evalhub.Store.Tests.Tables.{bench, first_version, crates, writer, run_body, tables, gone}

abbrev judge : RecordRow
judge = record bench { id = 2; type = "card"; name = "judge" }

abbrev judge_version : VersionRow
judge_version = record first_version { version_id = 20; record_id = 2 }

abbrev live_run : RunRow
live_run = record gone { body = some run_body; tombstoned_at = none; tombstone_reason = none }

abbrev before : Db
before = record (tables bench (live_run ∷ [])) {
  records = judge ∷ bench ∷ [];
  versions = judge_version ∷ first_version ∷ [];
  card_eval_runs =
      record { card_version_id = 20; eval_record_id = 1; run_id = "r0"; content_hash = 4 } ∷ [];
}

abbrev to_bench : RelationTarget
to_bench = version "lab" "bench" 1

abbrev after : Db
after = record before {
  relations =
      record {
        from_version_id = 20;
        type = "core/uses_eval";
        to_version_id = some 10;
        to_external = none;
        attrs = none;
      }
      ∷ [];
  card_eval_runs =
      record { card_version_id = 20; eval_record_id = 1; run_id = "r0"; content_hash = 4 }
      ∷ record { card_version_id = 20; eval_record_id = 1; run_id = "r1"; content_hash = 7 }
      ∷ [];
  audit =
      audit_row writer "lab" "relation.add" "card/lab/judge@1"
        (member "type" (string "core/uses_eval") (member "to" (string "id") end))
      ∷ [];
}

abbrev judge_end : ResolvedTarget
judge_end = hub (record {
  version_id = 20;
  ns = "lab";
  name = "judge";
  seq = 1;
  record_type = "card";
  tombstoned = false;
  visible = true;
  content_hash = 7;
})

abbrev bench_end : ResolvedTarget
bench_end = hub (record {
  version_id = 10;
  ns = "lab";
  name = "bench";
  seq = 1;
  record_type = "eval";
  tombstoned = false;
  visible = true;
  content_hash = 7;
})

abbrev stored : StoredRelation
stored = record { from = judge_end; relation_type = "core/uses_eval"; to = bench_end; attrs = none }

add-Grows_example : Grows before.card_eval_runs after.card_eval_runs
unfolding add evalhub.Store.Relations.version_info evalhub.Store.Db.◌>>=◌
    evalhub.Store.Relations.resolve_ref evalhub.Store.Relations.resolve_typed
    evalhub.Store.Records.find_record evalhub.Store.Records.visible_to evalhub.Base.Lists.contains
    evalhub.Store.Relations.extend_used_set evalhub.Store.Db.fetch evalhub.Store.UsedSet.lock_evals
    evalhub.Store.Rows.select_where evalhub.Store.UsedSet.fix evalhub.Store.UsedSet.id_set
    evalhub.Store.Relations.all_uses evalhub.Store.UsedSet.insert_id
    evalhub.Store.UsedSet.fix_record evalhub.Store.UsedSet.unknown_runs evalhub.Base.Decimal.decimal
    evalhub.Base.Decimal.digit evalhub.Store.Db.append evalhub.Store.Db.execute
    evalhub.Store.Db.pure evalhub.Store.Db.◌>>◌ evalhub.Store.Records.type_str
    evalhub.Store.Relations.resolve_stored evalhub.Store.Relations.target
    evalhub.Store.Relations.text evalhub.Store.Relations.visible evalhub.Store.Relations.write_edge
    evalhub.Store.UsedSet.insert evalhub.Store.UsedSet.insert_used evalhub.Store.UsedSet.runs_of
    evalhub.Store.UsedSet.used_set evalhub.Store.Relations.parse evalhub.Base.Lists.flat_map_from
add-Grows_example =
    add-Grows crates before "core/uses_eval" to_bench none writer 20 [] before after stored refl

two_rows {ℓ} :
    {A : Type ℓ} (p : A → Bool) (a b x : A) → find p (a ∷ b ∷ []) ≡ some x → (a ≡ x) ⊎ (b ≡ x)
two_rows p a b x h = elim (Bool-cases (p a)) [
  | inl e ↦ inl (let k = rw e at h in ground arith)
  | inr e ↦ elim (Bool-cases (p b)) [
    | inl f ↦ inr (let k = rw (e, f) at h in ground arith)
    | inr f ↦ absurd (let k = rw (e, f) at h in ground arith)
  ]
]

before-IsKeyed : IsKeyed before
before-IsKeyed = record {
  versions = λ p v h. elim (two_rows p judge_version first_version v h) [
    | inl e ↦ rw (← e) refl
    | inr e ↦ rw (← e) refl
  ];
  records =
      λ p r h. elim (two_rows p judge bench r h) [ inl e ↦ rw (← e) refl | inr e ↦ rw (← e) refl ];
}

abbrev bench_seen : TargetVersion
bench_seen = record {
  version_id = 10;
  ns = "lab";
  name = "bench";
  seq = 1;
  record_type = "eval";
  tombstoned = false;
  visible = true;
  content_hash = 7;
}

resolve_stored-visible_example : bench_seen.visible ≡ true
unfolding resolve_stored evalhub.Store.Relations.parse evalhub.Store.Relations.parse_seq
    evalhub.Base.Decimal.digits_value evalhub.Base.Text.has_char evalhub.Base.Text.rsplit_once
    evalhub.Base.Text.split_once evalhub.Base.Text.strip_prefix evalhub.Base.Text.all_chars
    evalhub.Store.Relations.resolve_ref evalhub.Store.Relations.resolve_typed
    evalhub.Store.Records.find_record evalhub.Store.Records.visible_to evalhub.Base.Lists.contains
    evalhub.Store.Relations.version_info evalhub.Store.Relations.target
    evalhub.Store.Relations.visible evalhub.Store.Records.type_str
resolve_stored-visible_example =
    resolve_stored-visible before before-IsKeyed ("lab" ∷ []) (some "lab/bench@1") bench_seen refl

parse-parse_relation_target_example : parse "lab/bench@12" ≡ some (version "lab" "bench" 12)
unfolding parse_relation_target evalhub.Core.Ids.parse_version evalhub.Core.Ids.hub_target
    evalhub.Core.Ids.is_slug evalhub.Core.Ids.slug_char evalhub.Core.Ids.slug_start
    evalhub.Base.Decimal.digits_value evalhub.Base.Text.rsplit_once evalhub.Base.Text.split_once
    evalhub.Base.Text.strip_prefix evalhub.Base.Text.all_chars
parse-parse_relation_target_example =
    parse-parse_relation_target "lab/bench@12" "lab" "bench" 12 refl (ground arith)
