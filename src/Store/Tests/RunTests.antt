-- ===== src/Store/Tests/RunTests.antt =====
-- The theorems on runs at concrete inputs.
use evalhub.Base.{ℕ, ◌≡◌, ◌↔◌, refl, false, none, some, List, [], ◌∷◌}
use evalhub.Json.{object, string, end, member}
use evalhub.Store.Rows.{select_where}
use evalhub.Store.Db.{RecordRow, RunRow, Db}
use evalhub.Store.Records.{audit_row}
use evalhub.Store.Runs.{find_run, get, into_stored}
use evalhub.Store.Runs.Shown.{get-archive}
use evalhub.Store.Runs.Prepare.{Checked}
use evalhub.Store.Runs.Checks.{RunInput}
use evalhub.Store.Runs.Consistent.{IsConsistent}
use evalhub.Store.Runs.Ops.{
  Op, put, archive, tombstone, kind_of, step, run_ops, run_ops-IsConsistent,
}
use evalhub.Store.Runs.Ops.Life.{LifeStep, life, deleted, step-LifeStep, run_ops-deleted}
use evalhub.Store.UsedSet.{UsedSet, RunResultRef, check_run_results, set_of}
use evalhub.Store.UsedSet.Laws.{check_run_results_iff}
use evalhub.Store.Tests.Tables.{
  bench, tables, crates, writer, request, one_eval, run_body, gone, with_gone,
}

abbrev requests : List Op
requests =
    put 6 "lab" "bench" "r1" run_body writer
    ∷ archive 7 "lab" "bench" "r1" writer
    ∷ tombstone 8 "lab" "bench" "r1" request writer
    ∷ put 9 "lab" "bench" "r1" run_body writer
    ∷ []

run_ops-IsConsistent_example : IsConsistent crates (run_ops crates requests one_eval)
unfolding select_where
run_ops-IsConsistent_example =
    run_ops-IsConsistent crates requests one_eval
      (record { unique = tt; bodies = tt; refs = tt; hashed = (refl, tt) })

-- The Eval with a run that is written and archived, and a request that writes it again.
abbrev written_run : Db
written_run =
    run_ops crates
      (put 6 "lab" "bench" "r1" run_body writer ∷ archive 7 "lab" "bench" "r1" writer ∷ []) one_eval

abbrev again : Op
again = put 9 "lab" "bench" "r1" run_body writer

step-LifeStep_example :
    LifeStep "r1"
      (kind_of again)
      (life 1 "r1" written_run)
      (life 1 "r1" (step crates again written_run))
step-LifeStep_example = step-LifeStep crates 1 "r1" again written_run

run_ops-deleted_example : life 1 "r1" (run_ops crates requests with_gone) ≡ deleted 7 false
unfolding find_run
run_ops-deleted_example = run_ops-deleted crates 1 "r1" requests with_gone 7 false refl

abbrev fresh : RunInput
fresh = record { run_id = "r2"; body = run_body }

abbrev fresh_run : Checked
fresh_run = record {
  run_id = "r2";
  body = object (member "status" (string "completed") (member "run_id" (string "r2") end));
  content_hash = 7;
  status = "completed";
  error_kind = none;
  started_at = none;
  ended_at = none;
  metrics = [];
  attachments = [];
  fingerprints =
      ("model", 7)
      ∷ ("task", 7)
      ∷ ("harness", 7)
      ∷ ("generation", 7)
      ∷ ("trial", 7)
      ∷ ("env", 7)
      ∷ [];
}

abbrev used : List (ℕ × UsedSet)
used = (1, ("r1", 7) ∷ []) ∷ []

abbrev judged : RunResultRef
judged = record { index = 0; eval_record_id = some 1; run_id = "r1" }

check_run_results_iff_example : check_run_results (gone ∷ []) (judged ∷ []) used ≡ []
unfolding set_of
check_run_results_iff_example =
    (check_run_results_iff (gone ∷ []) (judged ∷ []) used).1 ((1, refl, refl), tt)

-- A run that anyone may see.
abbrev shown : RunRow
shown = record gone {
  run_id = "r3";
  body = some run_body;
  tombstoned_at = none;
  tombstone_reason = none;
}

abbrev hidden : RunRow
hidden = record shown { archived_at = some 9; updated_at = 9 }

abbrev open_eval : RecordRow
open_eval = record bench { visibility = "public"; runs_hash = some 7 }

abbrev hidden_after : Db
hidden_after = record (tables open_eval (hidden ∷ [])) {
  audit =
      audit_row writer "lab" "run.archive" "eval/lab/bench/runs/r3"
        (member "content_hash" (string "07") end)
      ∷ [];
}

get-archive_example : get hidden_after "lab" "bench" "r3" ("else" ∷ []) ≡ none
unfolding evalhub.Store.Runs.archive evalhub.Base.Lists.contains evalhub.Store.Db.◌>>=◌
    evalhub.Store.Runs.lock_with_header evalhub.Store.Records.lock_record evalhub.Store.Db.fetch
    evalhub.Store.Records.find_record evalhub.Store.Records.latest_live evalhub.Store.Records.newest
    select_where evalhub.Store.Db.pure evalhub.Store.Runs.load_live find_run evalhub.Store.Db.◌>>◌
    evalhub.Store.Db.execute evalhub.Store.Db.append evalhub.Store.Rows.update_where
    evalhub.Store.Runs.subject
get-archive_example =
    get-archive "lab" "bench" "r3" crates 9 writer (tables open_eval (shown ∷ [])) hidden_after
      (into_stored open_eval hidden) ("else" ∷ []) refl refl
