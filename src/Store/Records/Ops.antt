-- ===== src/Store/Records/Ops.antt =====
-- crates/evalhub-store/src/records.rs: the requests on versions, in any order, and what they keep.
use evalhub.Base.{
  ℕ, String, ◌≡◌, refl, ap, not, Option, none, some, List, [], ◌∷◌, inl, inr, is_some, Bool-cases,
}
use evalhub.Base.Lists.{find}
use evalhub.Store.Db.{VersionRow, Actor, Db, StoreError, committed}
use evalhub.Store.Db.After.{
  After, After->>=, After->>, After-fetch, After-pure, After-raise, After-execute, After-append,
  After-committed,
}
use evalhub.Store.Db.Crates.{Crates}
use evalhub.Store.Records.{
  RecordType, Visibility, TombstoneRequest, lock_record, is_valid_label, is_version,
  is_live_version, found_live, no_live_version, live_version,
}
use evalhub.Store.Records
use evalhub.Store.Records.Ingest
use evalhub.Store.Records.Posts.{NewVersion, IngestFacts}
use evalhub.Store.Records.Ingest.Laws.{create_or_append-Move}
use evalhub.Store.Records.Wellformed.{IsWellformed}
use evalhub.Store.Records.Moves.{
  VersionMove, kept, buried, rebadged, labelled, VersionMove-IsWellformed, Stays, VersionMove-Stays,
}

-- A request on a record or on its versions, with the time of its transaction and the ids that it
-- draws, or the job that writes the badges of a version anew.
pub data Op : Type 0 where
  create_or_append : (now record_id version_id : ℕ) (new : NewVersion) → Op
  set_label : (type : RecordType) (ns name : String) (seq : ℕ) (label : String) (actor : Actor) → Op
  set_visibility :
      (type : RecordType) (ns name : String) (visibility : Visibility) (actor : Actor) → Op
  tombstone :
      (now : ℕ) (type : RecordType) (ns name : String) (seq : ℕ) (request : TombstoneRequest)
      (actor : Actor)
      → Op
  set_badges : (version_id : ℕ) (badges : List String) → Op

lock_record-same :
    (type : RecordType) (ns name : String) (db : Db)
    → After (λ _ after. after ≡ db) (lock_record type ns name db)
unfolding lock_record
lock_record-same type ns name db = After-fetch _ _ db (λ row e. refl)

set_label-Move :
    (type : RecordType) (ns name : String) (seq : ℕ) (label : String) (actor : Actor) (db : Db)
    → After
        (λ _ after. VersionMove db.versions after.versions)
        (Records.set_label type ns name seq label actor db)
unfolding Records.set_label
set_label-Move type ns name seq label actor db = elim (Bool-cases (not (is_valid_label label))) [
  | inl bad ↦ rw bad (After-raise StoreError.label_invalid db)
  | inr good ↦ rw good (
      After->>= {P = λ _ d. d ≡ db} _ _ db (lock_record-same type ns name db) (λ row d1 s1.
        After->> {P = λ _ d. d ≡ Records.unlabel row.id label db} _ _ d1
          (After-execute _ d1 (ap (Records.unlabel row.id label) s1))
          (λ _ d2 s2.
            After->> {P = λ _ d. VersionMove db.versions d.versions} _ _ d2
              (After-execute _ d2 (rw s2 (labelled row.id seq label)))
              (λ _ d3 m3.
                After->>= {P = λ _ d. VersionMove db.versions d.versions} _ _ d3
                  (After-fetch _ _ d3 (λ v e. m3))
                  (λ v d4 m4.
                    After->> {P = λ _ d. VersionMove db.versions d.versions} _ _ d4
                      (After-append _ d4 m4) (λ _ d5 m5. After-pure _ d5 m5))))))
]

set_visibility-Move :
    (type : RecordType) (ns name : String) (visibility : Visibility) (actor : Actor) (db : Db)
    → After
        (λ _ after. VersionMove db.versions after.versions)
        (Records.set_visibility type ns name visibility actor db)
unfolding Records.set_visibility
set_visibility-Move type ns name visibility actor db =
    After->>= {P = λ _ d. d ≡ db} _ _ db (lock_record-same type ns name db) (λ row d1 s1.
      After->> {P = λ _ d. VersionMove db.versions d.versions} _ _ d1
        (After-execute _ d1 (rw s1 kept)) (λ _ d2 m2. After-append _ d2 m2))

live_version-same : (r seq : ℕ) (db : Db) → After (λ _ after. after ≡ db) (live_version r seq db)
unfolding live_version
live_version-same r seq db = found (find (is_live_version r seq) db.versions)
  where
    found : (o : Option VersionRow) → After (λ _ after. after ≡ db) (found_live r seq o db)
    found (some v) = After-pure v db refl
    found none = elim (Bool-cases (is_some (find (is_version r seq) db.versions))) [
      | inl there ↦ rw there (After-raise StoreError.already_tombstoned db)
      | inr gone ↦ rw gone (After-raise StoreError.version_not_found db)
    ]

tombstone-Move :
    (c : Crates) (now : ℕ) (type : RecordType) (ns name : String) (seq : ℕ)
    (request : TombstoneRequest) (actor : Actor) (db : Db)
    → After
        (λ _ after. VersionMove db.versions after.versions)
        (Records.tombstone c now type ns name seq request actor db)
unfolding Records.tombstone
tombstone-Move c now type ns name seq request actor db =
    After->>= {P = λ _ d. d ≡ db} _ _ db (lock_record-same type ns name db) (λ row d1 s1.
      After->>= {P = λ _ d. d ≡ d1} _ _ d1 (live_version-same row.id seq d1) (λ v d2 s2.
        After->> {P = λ _ d. VersionMove db.versions d.versions} _ _ d2
          (After-execute _ d2 (rw (s2, s1) (buried now row.id seq request)))
          (λ _ d3 m3.
            After->> {P = λ _ d. VersionMove db.versions d.versions} _ _ d3 (After-append _ d3 m3)
              (λ _ d4 m4. After-pure _ d4 m4))))

set_badges-Move :
    (version_id : ℕ) (badges : List String) (db : Db)
    → After
        (λ _ after. VersionMove db.versions after.versions)
        (Records.set_badges version_id badges db)
unfolding Records.set_badges
set_badges-Move version_id badges db = After-execute _ db (rebadged version_id badges)

module _ (c : Crates) (badges_for : IngestFacts → List String) where
  -- The tables after one request: a transaction that fails leaves them as they were.
  unfoldable pub step : Op → Db → Db
  step (create_or_append now record_id version_id new) db =
      committed (Ingest.create_or_append c badges_for now record_id version_id new) db
  step (set_label type ns name seq label actor) db =
      committed (Records.set_label type ns name seq label actor) db
  step (set_visibility type ns name visibility actor) db =
      committed (Records.set_visibility type ns name visibility actor) db
  step (tombstone now type ns name seq request actor) db =
      committed (Records.tombstone c now type ns name seq request actor) db
  step (set_badges version_id badges) db = committed (Records.set_badges version_id badges) db

  unfoldable pub run_ops : List Op → Db → Db
  run_ops [] db = db
  run_ops (op ∷ ops) db = run_ops ops (step op db)

  step-Move : (op : Op) (db : Db) → VersionMove db.versions (step op db).versions
  unfolding step
  step-Move (create_or_append now record_id version_id new) db =
      After-committed (λ after. VersionMove db.versions after.versions) _ db kept
        (create_or_append-Move c badges_for now record_id version_id new db)
  step-Move (set_label type ns name seq label actor) db =
      After-committed (λ after. VersionMove db.versions after.versions) _ db kept
        (set_label-Move type ns name seq label actor db)
  step-Move (set_visibility type ns name visibility actor) db =
      After-committed (λ after. VersionMove db.versions after.versions) _ db kept
        (set_visibility-Move type ns name visibility actor db)
  step-Move (tombstone now type ns name seq request actor) db =
      After-committed (λ after. VersionMove db.versions after.versions) _ db kept
        (tombstone-Move c now type ns name seq request actor db)
  step-Move (set_badges version_id badges) db =
      After-committed (λ after. VersionMove db.versions after.versions) _ db kept
        (set_badges-Move version_id badges db)

  -- Whatever requests come, in whatever order and whether they succeed or fail: no two versions of
  -- a record have one number or one label, and a version has a body exactly when it is not deleted.
  pub run_ops-IsWellformed :
      (ops : List Op) (db : Db) → IsWellformed db.versions → IsWellformed (run_ops ops db).versions
  unfolding run_ops
  run_ops-IsWellformed [] db h = h
  run_ops-IsWellformed (op ∷ ops) db h =
      run_ops-IsWellformed ops (step op db) (VersionMove-IsWellformed (step-Move op db) h)

  still_there :
      (r seq : ℕ) (v : VersionRow) (ops : List Op) (db : Db)
      → Stays r seq v db.versions
      → Stays r seq v (run_ops ops db).versions
  unfolding run_ops
  still_there r seq v [] db h = h
  still_there r seq v (op ∷ ops) db h =
      still_there r seq v ops (step op db) (VersionMove-Stays r seq v (step-Move op db) h)

  -- A version that stands under a number stays there, whatever requests come and whatever badges
  -- are written anew: with its id, content hash, time and changed keys; its body is the same unless
  -- it was deleted since, and once it is deleted that is for good.
  pub run_ops-Stays :
      (r seq : ℕ) (v : VersionRow) (ops : List Op) (db : Db)
      → find (is_version r seq) db.versions ≡ some v
      → Stays r seq v (run_ops ops db).versions
  run_ops-Stays r seq v ops db e = still_there r seq v ops db (
    v,
    e,
    record {
      version = refl;
      hash = refl;
      posted = (refl, refl);
      deleted = λ _. (refl, refl);
      shown = λ _. refl;
    },
  )
