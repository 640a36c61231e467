-- ===== src/Store/Runs/Consistent/Writes.antt =====
-- About crates/evalhub-store/src/runs.rs: the tables while runs are written, and after.
use evalhub.Base.{
  ℕ, String, ◌≡◌, refl, ◌∙◌, true, false, ◌&&◌, none, some, List, [], ◌∷◌, ◌++◌, map, inl, inr,
  ◌==◌, str_eq, is_some, arith, eq_iff, ==_iff, Bool-cases, Option-cases,
}
use evalhub.Base.Lists.{All, All-append}
use evalhub.Store.Rows.{delete_where}
use evalhub.Store.Rows.Laws.{applied, All-map, All-not_deleted, All-updated, All-both, All-mapped}
use evalhub.Store.Db.{RecordRow, RunRow, RunAttachmentRefRow, Db}
use evalhub.Store.Db.Crates.{Crates}
use evalhub.Store.Runs.{is_run, find_run}
use evalhub.Store.Runs.Prepare.{Checked}
use evalhub.Store.Runs.Checks.{is_deleted}
use evalhub.Store.Runs.Write.{
  new_row, overwrite, upsert_row, ref_row, upsert, is_change, written_of, write_each, digest_of,
  set_runs_hash, changed_any, run_list,
}
use evalhub.Store.Runs.Table.{
  is_run_key, same_key, pairs_of-upsert_row, find_run-upsert_row_same, find_run-upsert_row_other,
}
use evalhub.Store.Runs.Consistent.{
  Unique, Unique-update_where, HasBody, RefersLive, IsHashed, IsConsistent,
}

-- No run is deleted that is to be written.
abbrev pub Alive : ℕ → List RunRow → Checked → Type 0
Alive r runs checked = is_deleted (find_run r checked.run_id runs) ≡ false

Unique-append :
    (u : RunRow) (runs : List RunRow)
    → find_run u.record_id u.run_id runs ≡ none
    → Unique runs
    → Unique (runs ++ u ∷ [])
unfolding find_run
Unique-append u [] gone h = (tt, tt)
Unique-append u (v ∷ vs) gone (fresh, more) = elim (Bool-cases (is_run u.record_id u.run_id v)) [
  | inl here ↦ absurd (let x = rw here at gone in ground arith)
  | inr away ↦ (
    All-append (λ w. is_run v.record_id v.run_id w ≡ false) vs (u ∷ []) fresh
        (ground (arith, eq_iff v.run_id u.run_id, eq_iff u.run_id v.run_id), tt),
    Unique-append u vs (let x = rw away at gone in x) more,
  )
]

-- The key being unique, what is known of the row that is found is known of all with its key.
none_gone :
    (r : ℕ) (i : String) (runs : List RunRow)
    → Unique runs
    → is_deleted (find_run r i runs) ≡ false
    → All (λ v. is_run r i v ≡ true → v.tombstoned_at ≡ none) runs
unfolding find_run
none_gone r i [] h alive = tt
none_gone r i (v ∷ vs) (fresh, more) alive = elim (Bool-cases (is_run r i v)) [
  | inl here ↦
      let (a, b) = is_run_key r i v here in
      let live : is_some v.tombstoned_at ≡ false = rw here at alive in
      (
        λ _. ground arith,
        All-map (λ w. is_run v.record_id v.run_id w ≡ false)
            (λ w. is_run r i w ≡ true → w.tombstoned_at ≡ none)
            (λ w away mine. absurd (other w (rw (a, b) at away) mine)) vs fresh,
      )
  | inr away ↦
      (λ mine. absurd (ground arith), none_gone r i vs more (let x = rw away at alive in x))
]
  where
    other : (w : RunRow) → is_run r i w ≡ false → is_run r i w ≡ true → ⊥
    other w away mine = cc

upsert_row-Unique :
    (now r : ℕ) (checked : Checked) (runs : List RunRow)
    → Unique runs
    → Unique (upsert_row now r checked runs)
unfolding upsert_row
upsert_row-Unique now r checked runs h = elim (Option-cases (find_run r checked.run_id runs)) [
  | inl gone ↦ rw gone (Unique-append (new_row now r checked) runs gone h)
  | inr (u, there) ↦ rw there (
      Unique-update_where (is_run r checked.run_id) (overwrite now checked) (λ v. refl) (λ v. refl)
        runs h)
]

upsert_row-HasBody :
    (now r : ℕ) (checked : Checked) (runs : List RunRow)
    → Unique runs
    → Alive r runs checked
    → All HasBody runs
    → All HasBody (upsert_row now r checked runs)
unfolding upsert_row
upsert_row-HasBody now r checked runs unique alive h =
    elim (Option-cases (find_run r checked.run_id runs)) [
      | inl gone ↦ rw gone (All-append HasBody runs (new_row now r checked ∷ []) h (refl, tt))
      | inr (u, there) ↦ rw there (
          All-updated (λ v. HasBody v × (is_run r checked.run_id v ≡ true → v.tombstoned_at ≡ none))
            HasBody (is_run r checked.run_id) (overwrite now checked) (λ v (b, live). body v b live)
            runs
            (All-both HasBody (λ v. is_run r checked.run_id v ≡ true → v.tombstoned_at ≡ none) runs
              h (none_gone r checked.run_id runs unique alive)))
    ]
  where
    body :
        (v : RunRow)
        → HasBody v
        → (is_run r checked.run_id v ≡ true → v.tombstoned_at ≡ none)
        → HasBody (applied (is_run r checked.run_id) (overwrite now checked) v)
    body v b live = elim (Bool-cases (is_run r checked.run_id v)) [
      | inl mine ↦ rw mine (rw (live mine) refl)
      | inr away ↦ rw away b
    ]

-- What is known of the runs of one record while they are written: the digest of the record is the
-- only thing that may be behind.
module _ (c : Crates) where
  pub record InWrite (r : ℕ) (db : Db) : Type 0 where
    pub unique : Unique db.runs
    pub bodies : All HasBody db.runs
    pub refs : All (RefersLive db.runs) db.run_attachment_refs
    pub hashed : All (λ row. (row.id == r) ≡ false → IsHashed c db.runs row) db.records

upsert-refs :
    (now r : ℕ) (checked : Checked) (db : Db)
    → Alive r db.runs checked
    → All (RefersLive db.runs) db.run_attachment_refs
    → All (RefersLive (upsert now r checked db).runs) (upsert now r checked db).run_attachment_refs
unfolding upsert
upsert-refs now r checked db alive h =
    All-append (RefersLive (upsert_row now r checked db.runs))
      (delete_where (λ a. a.record_id == r && str_eq a.run_id checked.run_id)
        db.run_attachment_refs)
      (map (ref_row r checked.run_id) checked.attachments)
      (All-not_deleted (RefersLive db.runs) (RefersLive (upsert_row now r checked db.runs))
        (λ a. a.record_id == r && str_eq a.run_id checked.run_id) (λ a ne l. old a ne l)
        db.run_attachment_refs h)
      (All-mapped (RefersLive (upsert_row now r checked db.runs)) (ref_row r checked.run_id)
        (λ a. new a) checked.attachments)
  where
    old :
        (a : RunAttachmentRefRow)
        → same_key a.record_id a.run_id r checked.run_id ≡ false
        → RefersLive db.runs a
        → RefersLive (upsert_row now r checked db.runs) a
    old a ne (u, e, live) =
        (u, find_run-upsert_row_other now a.record_id r a.run_id checked db.runs ne ∙ e, live)

    new :
        (a : String × ℕ)
        → RefersLive (upsert_row now r checked db.runs) (ref_row r checked.run_id a)
    new (path, sha) =
        let (u, e, live, hash, body) = find_run-upsert_row_same now r checked db.runs alive in
        (u, e, live)

-- A write of a run that is not deleted deletes none.
Alive-upsert_row :
    (now r : ℕ) (checked k : Checked) (runs : List RunRow)
    → Alive r runs checked
    → Alive r runs k
    → Alive r (upsert_row now r checked runs) k
Alive-upsert_row now r checked k runs alive h =
    elim (Bool-cases (same_key r k.run_id r checked.run_id)) [
      | inr ne ↦ rw (find_run-upsert_row_other now r r k.run_id checked runs ne) h
      | inl eq_ ↦
          let (u, e, live, hash, body) = find_run-upsert_row_same now r checked runs alive in
          let is : k.run_id ≡ checked.run_id = ground (arith, eq_iff k.run_id checked.run_id) in
          rw (is, e, live) refl
    ]

pub Alive-upsert :
    (now r : ℕ) (checked : Checked) (db : Db)
    → Alive r db.runs checked
    → (ks : List Checked) → All (Alive r db.runs) ks
    → All (Alive r (upsert now r checked db).runs) ks
unfolding upsert
Alive-upsert now r checked db alive ks =
    All-map (Alive r db.runs) (Alive r (upsert_row now r checked db.runs))
      (λ k h. Alive-upsert_row now r checked k db.runs alive h) ks

module _ (c : Crates) (r : ℕ) where
  upsert-InWrite :
      (now : ℕ) (checked : Checked) (db : Db)
      → Alive r db.runs checked
      → InWrite c r db
      → InWrite c r (upsert now r checked db)
  unfolding upsert
  upsert-InWrite now checked db alive h = record {
    unique = upsert_row-Unique now r checked db.runs h.unique;
    bodies = upsert_row-HasBody now r checked db.runs h.unique alive h.bodies;
    refs = upsert-refs now r checked db alive h.refs;
    hashed =
        All-map (λ row. (row.id == r) ≡ false → IsHashed c db.runs row)
          (λ row. (row.id == r) ≡ false → IsHashed c (upsert_row now r checked db.runs) row)
          (λ row fits ne.
            rw (pairs_of-upsert_row now row.id r checked db.runs (apart row ne)) (fits ne))
          db.records h.hashed;
  }
    where
      apart : (row : RecordRow) → (row.id == r) ≡ false → (r == row.id) ≡ false
      apart row ne = ground arith

  -- The loop over the elements that passed.
  pub write_each-InWrite :
      (now : ℕ) (existing : List RunRow) (checked : List Checked) (db : Db)
      → All (Alive r db.runs) checked
      → InWrite c r db
      → InWrite c r (write_each now existing r checked db)
  unfolding write_each
  write_each-InWrite now existing [] db alive h = h
  write_each-InWrite now existing (k ∷ ks) db (alive, more) h =
      elim (Bool-cases (is_change (written_of existing r k).change)) [
        | inl changed ↦ rw changed (
            write_each-InWrite now existing ks (upsert now r k db)
              (Alive-upsert now r k db alive ks more) (upsert-InWrite now k db alive h))
        | inr same ↦ rw same (write_each-InWrite now existing ks db more h)
      ]

  -- With the digest computed anew the tables are consistent.
  pub set_runs_hash-IsConsistent :
      (digest : ℕ) (db : Db)
      → digest_of c r db.runs ≡ some digest
      → InWrite c r db
      → IsConsistent c (set_runs_hash r digest db)
  unfolding digest_of
  set_runs_hash-IsConsistent digest db is h = record {
    unique = h.unique;
    bodies = h.bodies;
    refs = h.refs;
    hashed =
        All-updated (λ row. (row.id == r) ≡ false → IsHashed c db.runs row) (IsHashed c db.runs)
          (λ row. row.id == r) (λ row. record row { runs_hash = some digest })
          (λ row fits. now_fits row fits) db.records h.hashed;
  }
    where
      now_fits :
          (row : RecordRow)
          → ((row.id == r) ≡ false → IsHashed c db.runs row)
          → IsHashed c db.runs
              (applied (λ w. w.id == r) (λ w. record w { runs_hash = some digest }) row)
      now_fits row fits = elim (Bool-cases (row.id == r)) [
        | inl mine ↦ rw mine (rw ((==_iff row.id r).0 mine) is)
        | inr other ↦ rw other (fits other)
      ]

  pub IsConsistent-InWrite : (db : Db) → IsConsistent c db → InWrite c r db
  IsConsistent-InWrite db h = record {
    unique = h.unique;
    bodies = h.bodies;
    refs = h.refs;
    hashed =
        All-map (IsHashed c db.runs) (λ row. (row.id == r) ≡ false → IsHashed c db.runs row)
          (λ row fits _. fits) db.records h.hashed;
  }

-- When nothing changes, nothing is written.
pub write_each_unchanged :
    (now : ℕ) (existing : List RunRow) (r : ℕ) (checked : List Checked) (db : Db)
    → changed_any (run_list existing r checked) ≡ false
    → write_each now existing r checked db ≡ db
unfolding write_each
write_each_unchanged now existing r [] db h = refl
write_each_unchanged now existing r (k ∷ ks) db h =
    elim (Bool-cases (is_change (written_of existing r k).change)) [
      | inl changed ↦ absurd (let x = rw changed at h in ground arith)
      | inr same ↦ rw same (write_each_unchanged now existing r ks db (let x = rw same at h in x))
    ]
