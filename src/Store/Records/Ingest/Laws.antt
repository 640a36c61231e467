-- ===== src/Store/Records/Ingest/Laws.antt =====
-- About crates/evalhub-store/src/records.rs: what `create_or_append` does to the versions.
use evalhub.Base.{
  ℕ, String, ◌≡◌, refl, ◌∙◌, false, Option, none, some, List, [], ◌∷◌, ◌++◌, inl, inr, ◌==◌, ==_iff,
  Bool-cases,
}
use evalhub.Store.Db.{RecordRow, VersionRow, Db, StoreError, ok, pure}
use evalhub.Store.Db.After.{
  >>=-ok, After, After-ok, After->>=, After->>, After-pure, After-raise, After-execute,
  After-append, After-weaken,
}
use evalhub.Store.Db.Crates.{Crates}
use evalhub.Json.{Value}
use evalhub.Store.Records.{
  RecordType, card, eval, VersionMeta, version_meta, parse_visibility, find_record, latest_live,
}
use evalhub.Store.Records.CardRuns.{Edge, fix_card_runs}
use evalhub.Store.Records.Moves.{VersionMove, kept, appended}
use evalhub.Store.Records.Ingest.{
  facts_of, insert_version, insert_sides, next_version, label_taken, label_refused, append_version,
  unless_same, read_latest, create_or_append,
}
use evalhub.Store.Records.Posts.{
  NewVersion, IngestFacts, CreateOutcome, existing, insert_record, fixed_runs, missing_attachments,
  edges_of, card_runs,
}
use evalhub.Store.Records.Ingest.Steps.{
  Posted, insert_record-Named, insert_record-found, latest_live-append, meta_of, none_missing-same,
  or_raise-same, read_latest-some, unlabelled,
}

module _ (c : Crates) where
  fixed_runs-same :
      (body : Value) (edges : List Edge) (type : RecordType) (db : Db)
      → After (λ _ after. after ≡ db) (fixed_runs c body edges type db)
  fixed_runs-same body edges eval db = After-pure _ db refl
  fixed_runs-same body edges card db = or_raise-same (fix_card_runs c db body edges) db

  card_runs-same :
      (new : NewVersion) (edges : List Edge) (db : Db)
      → After (λ _ after. after ≡ db) (card_runs c new edges db)
  unfolding card_runs
  card_runs-same new edges db = fixed_runs-same new.body edges new.record_type db

-- What is known after the version's row is written, and stays so.
abbrev Written : NewVersion → RecordRow → VersionRow → Db → Db → Type 0
Written new row v db after =
    (after.versions ≡ db.versions ++ v ∷ [])
    × (after.records ≡ db.records)
    × (label_taken v.record_id v.label db.versions ≡ false)

insert_version-Written :
    (new : NewVersion) (row : RecordRow) (v : VersionRow) (db : Db)
    → After (λ _ after. Written new row v db after) (insert_version v db)
unfolding insert_version
insert_version-Written new row v db = elim (Bool-cases (label_refused v.label)) [
  | inl e ↦ rw e (After-raise StoreError.query db)
  | inr e ↦ elim (Bool-cases (label_taken v.record_id v.label db.versions)) [
    | inl taken ↦ rw (e, taken) (After-raise StoreError.label_in_use db)
    | inr free ↦ rw (e, free) (After-execute _ db (refl, refl, refl))
  ]
]

module _ (c : Crates) (badges_for : IngestFacts → List String) where
  -- The row that a post adds.
  abbrev added : ℕ → ℕ → NewVersion → RecordRow → Option VersionRow → Db → VersionRow
  added now version_id new row latest db =
      next_version c badges_for now version_id row.id latest (facts_of db new (edges_of db new)) new
        db.versions

  append_version-Written :
      (now version_id : ℕ) (new : NewVersion) (row : RecordRow) (latest : Option VersionRow)
      (db : Db)
      → After
          (λ outcome after.
            Written new row (added now version_id new row latest db) db after
            × (meta_of outcome
                ≡ version_meta
                    (parse_visibility row.visibility)
                    (added now version_id new row latest db)))
          (append_version c badges_for now version_id new row latest db)
  unfolding append_version insert_sides
  append_version-Written now version_id new row latest db =
      let v = added now version_id new row latest db in
      After->> {P = λ _ d. d ≡ db} _ _ db
        (none_missing-same (missing_attachments db new.attachments) db)
        (λ _ d1 s1.
          After->>= {P = λ _ d. d ≡ d1} _ _ d1 (card_runs-same c new (edges_of db new) d1)
            (λ runs d2 s2.
              After->> {P = λ _ d. Written new row v db d} _ _ d2
                (rw (s2, s1) (insert_version-Written new row v db))
                (λ _ d3 w3.
                  After->> {P = λ _ d. Written new row v db d} _ _ d3 (After-execute _ d3 w3)
                    (λ _ d4 w4.
                      After->> {P = λ _ d. Written new row v db d} _ _ d4 (After-append _ d4 w4)
                        (λ _ d5 w5. After-pure _ d5 (w5, refl))))))

  append_version-Move :
      (now version_id : ℕ) (new : NewVersion) (row : RecordRow) (latest : Option VersionRow)
      (db : Db)
      → After
          (λ _ after. VersionMove db.versions after.versions)
          (append_version c badges_for now version_id new row latest db)
  unfolding next_version
  append_version-Move now version_id new row latest db =
      After-weaken (append_version-Written now version_id new row latest db)
        (λ outcome after ((versions, records, free), meta).
          let v = added now version_id new row latest db in
          rw versions (appended v refl (unlabelled v.record_id v.label db.versions free) refl))

  append_version-Posted :
      (now version_id : ℕ) (new : NewVersion) (row : RecordRow) (latest : Option VersionRow)
      (db : Db)
      → find_record new.record_type new.ns new.name db.records ≡ some row
      → After
          (λ outcome after. Posted new (meta_of outcome) after)
          (append_version c badges_for now version_id new row latest db)
  unfolding next_version
  append_version-Posted now version_id new row latest db found =
      After-weaken (append_version-Written now version_id new row latest db)
        (λ outcome after ((versions, records, free), meta). (
          row,
          added now version_id new row latest db,
          rw records found,
          rw versions
              (latest_live-append (added now version_id new row latest db) db.versions refl refl),
          refl,
          meta,
        ))

  unless_same-Move :
      (now version_id : ℕ) (new : NewVersion) (row : RecordRow) (latest : Option VersionRow)
      (db : Db)
      → After
          (λ _ after. VersionMove db.versions after.versions)
          (unless_same c badges_for now version_id new row latest db)
  unfolding unless_same
  unless_same-Move now version_id new row none db =
      append_version-Move now version_id new row none db
  unless_same-Move now version_id new row (some l) db =
      elim (Bool-cases (l.content_hash == new.content_hash)) [
        | inl same ↦ rw same (After-pure _ db kept)
        | inr other ↦ rw other (append_version-Move now version_id new row (some l) db)
      ]

  unless_same-Posted :
      (now version_id : ℕ) (new : NewVersion) (row : RecordRow) (latest : Option VersionRow)
      (db : Db)
      → find_record new.record_type new.ns new.name db.records ≡ some row
      → latest_live row.id db.versions ≡ latest
      → After
          (λ outcome after. Posted new (meta_of outcome) after)
          (unless_same c badges_for now version_id new row latest db)
  unfolding unless_same
  unless_same-Posted now version_id new row none db found is =
      append_version-Posted now version_id new row none db found
  unless_same-Posted now version_id new row (some l) db found is =
      elim (Bool-cases (l.content_hash == new.content_hash)) [
        | inl same ↦ rw same (
            After-pure _ db
              (row, l, found, is, (==_iff l.content_hash new.content_hash).0 same, refl))
        | inr other ↦ rw other (append_version-Posted now version_id new row (some l) db found)
      ]

  pub create_or_append-Move :
      (now record_id version_id : ℕ) (new : NewVersion) (db : Db)
      → After
          (λ _ after. VersionMove db.versions after.versions)
          (create_or_append c badges_for now record_id version_id new db)
  unfolding create_or_append read_latest
  create_or_append-Move now record_id version_id new db =
      After->>= _ _ db (insert_record-Named record_id new db) (λ row d1 (found, same).
        After->>= {P = λ _ d. d ≡ d1} _ _ d1 (After-pure _ d1 refl)
          (λ latest d2 s2. rw (s2, ← same) (unless_same-Move now version_id new row latest d1)))

  create_or_append-Posted :
      (now record_id version_id : ℕ) (new : NewVersion) (db : Db)
      → After
          (λ outcome after. Posted new (meta_of outcome) after)
          (create_or_append c badges_for now record_id version_id new db)
  unfolding create_or_append read_latest
  create_or_append-Posted now record_id version_id new db =
      After->>= _ _ db (insert_record-Named record_id new db) (λ row d1 (found, same).
        After->>= {P = λ l d. (d ≡ d1) × (latest_live row.id d1.versions ≡ l)} _ _ d1
          (After-pure _ d1 (refl, refl))
          (λ latest d2 (s2, is).
            rw s2 (unless_same-Posted now version_id new row latest d1 found is)))

  unless_same-existing :
      (now version_id : ℕ) (new : NewVersion) (row : RecordRow) (v : VersionRow) (db : Db)
      → v.content_hash ≡ new.content_hash
      → unless_same c badges_for now version_id new row (some v) db
        ≡ ok (existing (version_meta (parse_visibility row.visibility) v), db)
  unfolding unless_same pure
  unless_same-existing now version_id new row v db e =
      rw ((==_iff v.content_hash new.content_hash).1 e) refl

  -- What was posted is there: a further post of the content finds it and changes nothing.
  found_again :
      (now record_id version_id : ℕ) (new : NewVersion) (meta : VersionMeta) (db : Db)
      → Posted new meta db
      → create_or_append c badges_for now record_id version_id new db ≡ ok (existing meta, db)
  unfolding create_or_append
  found_again now record_id version_id new meta db (row, v, found, latest, content, is) =
      >>=-ok (insert_record record_id new) _ db db row
        (insert_record-found record_id new db row found)
      ∙ (>>=-ok (read_latest row.id) _ db db (some v) (read_latest-some row.id v db latest)
          ∙ rw is (unless_same-existing now version_id new row v db content))

  -- A post that succeeded may be sent again, at another time and with other fresh ids, on any tables
  -- where the record's row and its latest live version are still what the first post left: it is
  -- answered with the version of the first post, as existing, and changes nothing in any table.
  pub create_or_append_twice :
      (now record_id version_id later other_record other_version : ℕ) (new : NewVersion)
      (db after since : Db) (outcome : CreateOutcome)
      → create_or_append c badges_for now record_id version_id new db ≡ ok (outcome, after)
      → find_record new.record_type new.ns new.name since.records
        ≡ find_record new.record_type new.ns new.name after.records
      → ((row : RecordRow)
          → find_record new.record_type new.ns new.name after.records ≡ some row
          → latest_live row.id since.versions ≡ latest_live row.id after.versions)
      → create_or_append c badges_for later other_record other_version new since
        ≡ ok (existing (meta_of outcome), since)
  create_or_append_twice now record_id version_id later other_record other_version new db after
        since outcome h same_row same_latest =
      let (row, v, found, latest, content, is) =
        After-ok _ outcome after (create_or_append-Posted now record_id version_id new db) h in
      found_again later other_record other_version new (meta_of outcome) since
        (row, v, same_row ∙ found, same_latest row found ∙ latest, content, is)
