-- ===== src/Store/Records/Ingest/Steps.antt =====
-- About crates/evalhub-store/src/records.rs: single steps of `create_or_append`.
use evalhub.Base.{
  ℕ, ◌+◌, ◌<◌, ◌≤◌, String, ◌≡◌, refl, ◌∙◌, true, false, ◌&&◌, Option, none, some, List, [], ◌∷◌,
  ◌++◌, inl, inr, ◌==◌, arith, ==_iff, Bool-cases, and-true, eq_refl,
}
use evalhub.Base.Lists.{contains, All}
use evalhub.Store.Rows.{select_where}
use evalhub.Store.Rows.Laws.{All-select_where, select_where-append, find-append}
use evalhub.Store.Db.{RecordRow, VersionRow, Db, StoreError, Result, ok, err, pure}
use evalhub.Store.Db.After.{After, After-pure, After-raise}
use evalhub.Store.Records.{
  type_str, is_record, VersionMeta, version_meta, parse_visibility, find_record, is_labelled,
  newest, is_live, is_live_of, latest_live, max_seq,
}
use evalhub.Store.Records.CardRuns.{CardRuns}
use evalhub.Store.Records.Wellformed.{same_text, same_text-some, same_text-none}
use evalhub.Store.Records.Moves.{seq-le-max_seq}
use evalhub.Store.Records.Ingest.{label_taken, read_latest}
use evalhub.Store.Records.Posts.{
  NewVersion, CreateOutcome, created, existing, new_record, record_or_new, insert_record, or_raise,
  none_missing,
}

pub unlabelled :
    (r : ℕ) (label : Option String) (ws : List VersionRow)
    → label_taken r label ws ≡ false
    → All (λ w. (w.record_id == r && same_text w.label label) ≡ false) ws
unlabelled r label [] k = tt
unlabelled r none (w ∷ ws) k = (ground (arith, same_text-none w.label), unlabelled r none ws k)
unlabelled r (some l) (w ∷ ws) k = elim (Bool-cases (is_labelled r l w)) [
  | inl e ↦ absurd (let x = rw e at k in ground arith)
  | inr e ↦
      (ground (arith, same_text-some w.label l), unlabelled r (some l) ws (let x = rw e at k in x))
]

pub insert_record-found :
    (id : ℕ) (new : NewVersion) (db : Db) (row : RecordRow)
    → find_record new.record_type new.ns new.name db.records ≡ some row
    → insert_record id new db ≡ ok (row, db)
unfolding insert_record pure
insert_record-found id new db row e = rw e refl

pub read_latest-some :
    (r : ℕ) (v : VersionRow) (db : Db)
    → latest_live r db.versions ≡ some v
    → read_latest r db ≡ ok (some v, db)
unfolding read_latest pure
read_latest-some r v db e = rw e refl

newest-append :
    (ws : List VersionRow) (v : VersionRow)
    → All (λ w. w.seq < v.seq) ws
    → newest (ws ++ v ∷ []) ≡ some v
unfolding newest
newest-append [] v h = refl
newest-append (w ∷ ws) v (lt, more) = rw (newest-append ws v more) (ground arith)

-- A live row with a new number is the latest one.
pub latest_live-append :
    (v : VersionRow) (vs : List VersionRow)
    → v.seq ≡ max_seq v.record_id vs + 1
    → v.tombstoned_at ≡ none
    → latest_live v.record_id (vs ++ v ∷ []) ≡ some v
unfolding latest_live select_where
latest_live-append v vs fresh stands =
    rw (select_where-append (is_live_of v.record_id) vs (v ∷ []), alone)
      (newest-append (select_where (is_live_of v.record_id) vs) v (
        All-select_where (λ w. w.record_id ≡ v.record_id → w.seq ≤ max_seq v.record_id vs)
          (λ w. w.seq < v.seq) (is_live_of v.record_id)
          (λ w mine le.
            let e = and-true (w.record_id == v.record_id) (is_live w) mine in
            let k : w.seq ≤ max_seq v.record_id vs = le ((==_iff w.record_id v.record_id).0 e.0) in
            omega arith)
          vs (seq-le-max_seq v.record_id vs)))
  where
    mine_live : is_live_of v.record_id v ≡ true
    mine_live = rw stands (ground arith)

    alone : select_where (is_live_of v.record_id) (v ∷ []) ≡ v ∷ []
    alone = rw mine_live refl

-- What a post leaves: the record under its name, with a latest live version of the content.
abbrev pub Posted : NewVersion → VersionMeta → Db → Type 0
Posted new meta after =
    (row : RecordRow) × (v : VersionRow) × (find_record new.record_type new.ns new.name
        after.records
      ≡ some row)
    × (latest_live row.id after.versions ≡ some v)
    × (v.content_hash ≡ new.content_hash)
    × (meta ≡ version_meta (parse_visibility row.visibility) v)

abbrev pub meta_of : CreateOutcome → VersionMeta
meta_of (created meta facts) = meta
meta_of (existing meta) = meta

abbrev Named : NewVersion → Db → RecordRow → Db → Type 0
Named new db row after =
    (find_record new.record_type new.ns new.name after.records ≡ some row)
    × (after.versions ≡ db.versions)

find_record-append :
    (id : ℕ) (new : NewVersion) (records : List RecordRow)
    → find_record new.record_type new.ns new.name records ≡ none
    → find_record new.record_type new.ns new.name (records ++ new_record id new ∷ [])
      ≡ some (new_record id new)
unfolding find_record
find_record-append id new records e =
    find-append (is_record new.record_type new.ns new.name) records (new_record id new ∷ [])
    ∙ rw (e, eq_refl (type_str new.record_type), eq_refl new.ns, eq_refl new.name) refl

pub insert_record-Named :
    (id : ℕ) (new : NewVersion) (db : Db) → After (Named new db) (insert_record id new db)
unfolding insert_record
insert_record-Named id new db = named (find_record new.record_type new.ns new.name db.records) refl
  where
    named :
        (found : Option RecordRow)
        → find_record new.record_type new.ns new.name db.records ≡ found
        → After (Named new db) (record_or_new id new found db)
    named (some r) e = After-pure r db (e, refl)
    named none e = elim (Bool-cases (contains db.namespaces new.ns)) [
      | inl known ↦
          rw known (After-pure (new_record id new) _ (find_record-append id new db.records e, refl))
      | inr unknown ↦ rw unknown (After-raise (StoreError.namespace_unknown new.ns) db)
    ]

pub none_missing-same :
    (shas : List ℕ) (db : Db) → After (λ _ after. after ≡ db) (none_missing shas db)
none_missing-same [] db = After-pure tt db refl
none_missing-same (sha ∷ shas) db = After-raise (StoreError.attachment_missing (sha ∷ shas)) db

pub or_raise-same : (r : Result CardRuns) (db : Db) → After (λ _ after. after ≡ db) (or_raise r db)
or_raise-same (ok runs) db = After-pure runs db refl
or_raise-same (err e) db = After-raise e db
