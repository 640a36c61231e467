-- ===== src/Store/Runs/Moves.antt =====
-- About crates/evalhub-store/src/runs.rs: the moves on the tables of which the transactions on runs
-- are made.
use evalhub.Base.{
  ℕ, String, ◌≡◌, refl, Bool, true, false, none, some, List, [], ◌++◌, inl, inr, is_some,
  if◌then◌else◌, Option-cases,
}
use evalhub.Base.Lists.{All}
use evalhub.Json.{Value}
use evalhub.Store.Db.{
  RecordRow, RunRow, Actor, AuditRow, Db, StoreError, Result, ok, err, ◌>>◌, pure, append,
}
use evalhub.Store.Db.After.{
  After, After->>=, After->>, After-fetch, After-pure, After-raise, After-execute, After-append,
  After-weaken,
}
use evalhub.Store.Db.Crates.{Crates}
use evalhub.Store.Records.{TombstoneRequest, lock_record}
use evalhub.Store.Runs.{
  find_run, mark, bury, lock_with_header, not_deleted, load_live, tombstone, set_archived,
  change_archived, reload, same, into_stored,
}
use evalhub.Store.Runs.Prepare.{Checked}
use evalhub.Store.Runs.Checks.{RunInput, check_batch}
use evalhub.Store.Runs.Checks.Laws.{check_batch_iff, AllPass-alive}
use evalhub.Store.Runs.Write.{
  write_each, recompute_runs_hash, current_runs_hash, changed_any, run_list, write_checked,
  write_runs, put_inputs, digest_of, set_runs_hash,
}
use evalhub.Store.Runs.Consistent.Writes.{Alive, write_each_unchanged}

-- What a request is about: it writes runs, marks one archived or not, or deletes one.
pub data Kind : Type 0 where
  writes : Kind
  marks : (run_id : String) (archived : Bool) → Kind
  deletes : (run_id : String) → Kind

module _ (c : Crates) where
  pub data Move (db : Db) : Kind → Db → Type 0 where
    audited : {k : Kind} (rows : List AuditRow) → Move db k (record db { audit = db.audit ++ rows })
    marked :
        (now r : ℕ) (i : String) (archived : Bool) (u : RunRow)
        → find_run r i db.runs ≡ some u
        → u.tombstoned_at ≡ none
        → Move db (marks i archived) (mark now r i archived db)
    buried :
        (now r : ℕ) (i : String) (request : TombstoneRequest) (u : RunRow)
        → find_run r i db.runs ≡ some u
        → u.tombstoned_at ≡ none
        → Move db (deletes i) (bury now r i request db)
    written :
        (now r digest : ℕ) (checked : List Checked)
        → All (Alive r db.runs) checked
        → digest_of c r (write_each now db.runs r checked db).runs ≡ some digest
        → Move db writes (set_runs_hash r digest (write_each now db.runs r checked db))

  pub data Moves (k : Kind) (db : Db) : Db → Type 0 where
    here : Moves k db db
    next : {mid after : Db} → Moves k db mid → Move mid k after → Moves k db after

  -- Where a transaction that does not fail leads.
  abbrev pub Leads : {A : Type 0} → Kind → Db → Result (A × Db) → Type 0
  Leads k db result = After (λ _ after. Moves k db after) result

  lock_with_header-same :
      (ns name : String) (db : Db) → After (λ _ after. after ≡ db) (lock_with_header ns name db)
  unfolding lock_with_header lock_record
  lock_with_header-same ns name db =
      After->>= {P = λ _ after. after ≡ db} _ _ db (After-fetch _ _ db (λ row e. refl))
        (λ row after same.
          After->>= {P = λ _ last. last ≡ db} _ _ after (After-fetch _ _ after (λ header e. same))
            (λ header last is. After-pure _ last is))

  not_deleted-live :
      (u : RunRow) (db before : Db)
      → db ≡ before
      → After (λ _ after. (after ≡ before) × (u.tombstoned_at ≡ none)) (not_deleted u db)
  not_deleted-live u db before same = elim (Option-cases u.tombstoned_at) [
    | inl live ↦ rw live (After-pure tt db (same, refl))
    | inr (at, dead) ↦ rw dead (After-raise StoreError.run_deleted db)
  ]

  pub load_live-same :
      (r : ℕ) (i : String) (db : Db)
      → After
          (λ u after. (after ≡ db) × (find_run r i db.runs ≡ some u) × (u.tombstoned_at ≡ none))
          (load_live r i db)
  unfolding load_live
  load_live-same r i db =
      After->>= {P = λ u after. (after ≡ db) × (find_run r i db.runs ≡ some u)} _ _ db
        (After-fetch _ _ db (λ row e. (refl, e)))
        (λ u after (same, e).
          After->> {P = λ _ last. (last ≡ db) × (u.tombstoned_at ≡ none)} _ _ after
            (not_deleted-live u after db same)
            (λ _ last (is, live). After-pure u last (is, e, live)))

  recompute-Leads :
      (now r : ℕ) (checked : List Checked) (db : Db)
      → All (Alive r db.runs) checked
      → Leads writes db (recompute_runs_hash c r (write_each now db.runs r checked db))
  unfolding recompute_runs_hash
  recompute-Leads now r checked db alive =
      After->>=
        {P = λ digest after.
          (after ≡ write_each now db.runs r checked db)
          × (digest_of c r (write_each now db.runs r checked db).runs ≡ some digest)}
        _ _ (write_each now db.runs r checked db) (After-fetch _ _ _ (λ digest e. (refl, e)))
        (λ digest after (same, e).
          After->> {P = λ _ last. Moves writes db last} _ _ after
            (After-execute _ after (rw same (next here (written now r digest checked alive e))))
            (λ _ last moves. After-pure digest last moves))

  current_runs_hash-same :
      (r : ℕ) (db : Db) → After (λ _ after. after ≡ db) (current_runs_hash c r db)
  unfolding current_runs_hash
  current_runs_hash-same r db =
      After->>= {P = λ _ after. after ≡ db} _ _ db (After-fetch _ _ db (λ row e. refl))
        (λ row after same. After-fetch _ _ after (λ h e. same))

  write_checked-Leads :
      (now r : ℕ) (ns name : String) (actor : Actor) (checked : List Checked) (db : Db)
      → All (Alive r db.runs) checked
      → Leads writes db (write_checked c now r ns name actor checked db)
  unfolding write_checked
  write_checked-Leads now r ns name actor checked db alive =
      After->> {P = λ _ after. after ≡ write_each now db.runs r checked db} _ _ db
        (After-execute _ db refl)
        (λ _ after same.
          After->>= {P = λ _ mid. Moves writes db mid} _ _ after
            (rw same (digested (changed_any (run_list db.runs r checked)) refl))
            (λ digest mid moves.
              After->> {P = λ _ last. Moves writes db last} _ _ mid
                (After-execute _ mid (next moves (audited _)))
                (λ _ last done. After-pure _ last done)))
    where
      digested :
          (b : Bool)
          → changed_any (run_list db.runs r checked) ≡ b
          → After
              (λ _ after. Moves writes db after)
              ((if b then recompute_runs_hash c r else current_runs_hash c r)
                (write_each now db.runs r checked db))
      digested true e = recompute-Leads now r checked db alive
      digested false e =
          After-weaken (current_runs_hash-same r (write_each now db.runs r checked db))
            (λ _ after same. rw (same, write_each_unchanged now db.runs r checked db e) here)

  pub write_runs-Leads :
      (now r : ℕ) (ns name : String) (header : Value) (inputs : List RunInput) (actor : Actor)
      (db : Db)
      → Leads writes db (write_runs c now r ns name header inputs actor db)
  unfolding write_runs
  write_runs-Leads now r ns name header inputs actor db =
      checked_first (check_batch c db r header inputs) refl
    where
      checked_first :
          (batch : Result (List Checked))
          → check_batch c db r header inputs ≡ batch
          → Leads writes db (elim batch [
            | err e ↦ err e
            | ok checked ↦ write_checked c now r ns name actor checked db
          ])
      checked_first (err e) is = After.failed e
      checked_first (ok checked) is = write_checked-Leads now r ns name actor checked db (
          AllPass-alive c db.runs db.attachments r header inputs [] checked
            ((check_batch_iff c db r header inputs checked).0 is))

  pub put_inputs-Leads :
      (now : ℕ) (ns name : String) (inputs : List RunInput) (actor : Actor) (db : Db)
      → Leads writes db (put_inputs c now ns name inputs actor db)
  unfolding put_inputs
  put_inputs-Leads now ns name inputs actor db =
      After->>= _ _ db (lock_with_header-same ns name db) (λ (row, header) after same.
        rw same (write_runs-Leads now row.id ns name header inputs actor db))

  pub reload-same :
      (row : RecordRow) (run_id : String) (db : Db)
      → After (λ _ after. after ≡ db) (reload row run_id db)
  unfolding reload
  reload-same row run_id db =
      After->>= {P = λ _ after. after ≡ db} _ _ db (After-fetch _ _ db (λ u e. refl))
        (λ u after same. After-pure _ after same)

  -- An audit row, and the run read again.
  noted-Leads :
      {k : Kind} (before : Db) (entry : AuditRow) (row : RecordRow) (run_id : String) (db : Db)
      → Moves k before db
      → Leads k before ((append entry >> reload row run_id) db)
  noted-Leads {k = k} before entry row run_id db moves =
      After->> {P = λ _ d. Moves k before d} _ _ db (After-append entry db (next moves (audited _)))
        (λ _ d m. After-weaken (reload-same row run_id d) (λ _ last same. rw same m))

  pub tombstone-Leads :
      (now : ℕ) (ns name run_id : String) (request : TombstoneRequest) (actor : Actor) (db : Db)
      → Leads (deletes run_id) db (tombstone c now ns name run_id request actor db)
  unfolding tombstone
  tombstone-Leads now ns name run_id request actor db =
      After->>= _ _ db (lock_with_header-same ns name db) (λ (row, header) d1 s1.
        After->>= _ _ d1 (load_live-same row.id run_id d1) (λ u d2 (s2, e, live).
          After->> {P = λ _ d. Moves (deletes run_id) db d} _ _ d2
            (After-execute _ d2
              (rw (s2, s1) (next here (buried now row.id run_id request u (rw (← s1) e) live))))
            (λ _ d3 m3. noted-Leads db _ row run_id d3 m3)))

  change_archived-Leads :
      (now : ℕ) (ns name run_id : String) (archived : Bool) (actor : Actor) (row : RecordRow)
      (u : RunRow) (db : Db)
      → find_run row.id run_id db.runs ≡ some u
      → u.tombstoned_at ≡ none
      → Leads
          (marks run_id archived)
          db
          (change_archived c now ns name run_id archived actor row u db)
  unfolding change_archived
  change_archived-Leads now ns name run_id archived actor row u db e live =
      After->> {P = λ _ d. Moves (marks run_id archived) db d} _ _ db
        (After-execute _ db (next here (marked now row.id run_id archived u e live)))
        (λ _ d m. noted-Leads db _ row run_id d m)

  pub set_archived-Leads :
      (now : ℕ) (ns name run_id : String) (archived : Bool) (actor : Actor) (db : Db)
      → Leads (marks run_id archived) db (set_archived c now ns name run_id archived actor db)
  unfolding set_archived
  set_archived-Leads now ns name run_id archived actor db =
      After->>= _ _ db (lock_with_header-same ns name db) (λ (row, header) d1 s1.
        After->>= _ _ d1 (load_live-same row.id run_id d1) (λ u d2 (s2, e, live).
          rw (s2, s1) (either (same (is_some u.archived_at) archived) row u (rw (← s1) e) live)))
    where
      either :
          (b : Bool) (row : RecordRow) (u : RunRow)
          → find_run row.id run_id db.runs ≡ some u
          → u.tombstoned_at ≡ none
          → Leads (marks run_id archived) db (
              (if b
                  then pure (into_stored row u)
                  else change_archived c now ns name run_id archived actor row u)
                db)
      either true row u e live = After-pure (into_stored row u) db here
      either false row u e live =
          change_archived-Leads now ns name run_id archived actor row u db e live
