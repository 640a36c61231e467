-- ===== src/Store/Runs/Shown.antt =====
-- About crates/evalhub-store/src/runs.rs: what archiving and deleting a run change for its readers.
use evalhub.Base.{
  ℕ, String, ◌≡◌, refl, Bool, true, false, none, some, List, inl, inr, is_some, if◌then◌else◌,
  Bool-cases,
}
use evalhub.Base.Lists.{contains}
use evalhub.Json.{Value}
use evalhub.Store.Db.{RecordRow, RunRow, Actor, Db, ok, pure}
use evalhub.Store.Db.After.{
  After, After-ok, After-weaken, After-pure, After-fetch, After-execute, After-append, After->>=,
  After->>,
}
use evalhub.Store.Db.Crates.{Crates}
use evalhub.Store.Records.{eval, find_record, lock_record, latest_live, visible_to}
use evalhub.Store.Runs.{
  StoredRun, find_run, get, lock_with_header, same, archive_run, into_stored, change_archived,
  set_archived, archive,
}
use evalhub.Store.Runs.Table.{find_run-update_where_same}
use evalhub.Store.Runs.Moves.{load_live-same, reload-same}

module _ (ns name run_id : String) where
  -- The run stands and is archived.
  abbrev Archived : Db → Type 0
  Archived db =
      (r : RecordRow) × (find_record eval ns name db.records ≡ some r)
      × (u : RunRow) × (find_run r.id run_id db.runs ≡ some u)
      × (is_some u.archived_at ≡ true)

  Archived-get :
      (db : Db) (caller : List String)
      → Archived db
      → contains caller ns ≡ false
      → get db ns name run_id caller ≡ none
  unfolding get
  Archived-get db caller (r, found, u, stands, is) stranger =
      rw found (elim (Bool-cases (visible_to r.visibility r.ns caller)) [
        | inr e ↦ rw e refl
        | inl e ↦ elim (Bool-cases (is_some (latest_live r.id db.versions))) [
          | inr f ↦ rw (e, f) refl
          | inl f ↦ rw (e, f, stands, stranger, is) refl
        ]
      ])

  lock_with_header-found :
      (db : Db)
      → After
          (λ (p : RecordRow × Value) after.
            (after ≡ db) × (find_record eval ns name db.records ≡ some p.0))
          (lock_with_header ns name db)
  unfolding lock_with_header lock_record
  lock_with_header-found db =
      After->>= {P = λ row after. (after ≡ db) × (find_record eval ns name db.records ≡ some row)} _
        _ db (After-fetch _ _ db (λ row e. (refl, e)))
        (λ row d1 (s1, e).
          After->>= {P = λ _ d. d ≡ db} _ _ d1 (After-fetch _ _ d1 (λ header _. s1))
            (λ header d2 s2. After-pure (row, header) d2 (s2, e)))

  module _ (c : Crates) (now : ℕ) (actor : Actor) where
    change_archived-Archived :
        (row : RecordRow) (u : RunRow) (db : Db)
        → find_record eval ns name db.records ≡ some row
        → find_run row.id run_id db.runs ≡ some u
        → After
            (λ _ after. Archived after)
            (change_archived c now ns name run_id true actor row u db)
    unfolding change_archived
    change_archived-Archived row u db found stands =
        After->> {P = λ _ d. Archived d} _ _ db
          (After-execute _ db (
            row,
            found,
            archive_run now true u,
            find_run-update_where_same (archive_run now true) (λ v. refl) (λ v. refl) row.id run_id
                db.runs u stands,
            refl,
          ))
          (λ _ d1 h1.
            After->> {P = λ _ d. Archived d} _ _ d1 (After-append _ d1 h1)
              (λ _ d2 h2. After-weaken (reload-same c row run_id d2) (λ _ last is. rw is h2)))

    set_archived-Archived :
        (db : Db)
        → After (λ _ after. Archived after) (set_archived c now ns name run_id true actor db)
    unfolding set_archived
    set_archived-Archived db =
        After->>= _ _ db (lock_with_header-found db) (λ (row, header) d1 (s1, found).
          After->>= _ _ d1 (load_live-same c row.id run_id d1) (λ u d2 (s2, stands, live).
            rw (s2, s1) (either row u found (rw (← s1) stands) (is_some u.archived_at) refl)))
      where
        either :
            (row : RecordRow) (u : RunRow)
            → find_record eval ns name db.records ≡ some row
            → find_run row.id run_id db.runs ≡ some u
            → (b : Bool) → is_some u.archived_at ≡ b
            → After
                (λ _ after. Archived after)
                ((if same b true
                    then pure (into_stored row u)
                    else change_archived c now ns name run_id true actor row u)
                  db)
        either row u found stands true is =
            After-pure (into_stored row u) db (row, found, u, stands, is)
        either row u found stands false is = change_archived-Archived row u db found stands

    -- Once a run is archived, nobody who is not a member of its namespace is shown it, whether the
    -- Eval is public or not, and whether or not it was archived before.
    pub get-archive :
        (db after : Db) (s : StoredRun) (caller : List String)
        → archive c now ns name run_id actor db ≡ ok (s, after)
        → contains caller ns ≡ false
        → get after ns name run_id caller ≡ none
    unfolding archive
    get-archive db after s caller h stranger =
        Archived-get after caller (After-ok _ s after (set_archived-Archived db) h) stranger
