-- ===== src/Store/Runs/Consistent.antt =====
-- About crates/evalhub-store/src/runs.rs: what the tables of runs always satisfy, and that each
-- statement on them keeps it.
pub mod Writes
use evalhub.Base.{
  ℕ, String, ◌≡◌, refl, ap, sym, ◌∙◌, Bool, true, false, not, ◌&&◌, Option, none, some, List, [],
  ◌∷◌, inl, inr, ◌==◌, if◌then◌else◌, str_eq, is_some, arith, eq_iff, ==_iff, Bool-cases,
}
use evalhub.Base.Lists.{find, All}
use evalhub.Core.Runs.{runs_hash}
use evalhub.Store.Rows.{update_where, delete_where}
use evalhub.Store.Rows.Laws.{applied, All-update_where, All-map, All-not_deleted}
use evalhub.Store.Db.{RecordRow, RunRow, RunAttachmentRefRow, Db}
use evalhub.Store.Db.Crates.{Crates}
use evalhub.Store.Records.{TombstoneRequest}
use evalhub.Store.Runs.{is_run, find_run, bury_run, bury, archive_run, mark}
use evalhub.Store.Runs.Write.{hash_pair}
use evalhub.Store.Runs.Table.{
  applied_keeps, is_run-applied, same_key, find_run-update_where_other, find_run-update_where_same,
  pairs_of, pairs_of-update_where, find_run-update_where,
}

-- The primary key of `runs`.
abbrev pub Unique : List RunRow → Type 0
Unique [] = Unit
Unique (u ∷ us) = All (λ v. is_run u.record_id u.run_id v ≡ false) us × Unique us

-- A run has a body exactly when it is not deleted.
abbrev pub HasBody : RunRow → Type 0
HasBody u = is_some u.body ≡ not (is_some u.tombstoned_at)

-- An attachment is counted for a run that stands and is not deleted.
abbrev pub RefersLive : List RunRow → RunAttachmentRefRow → Type 0
RefersLive runs a =
    (u : RunRow) × (find_run a.record_id a.run_id runs ≡ some u) × (u.tombstoned_at ≡ none)

module _ (c : Crates) where
  -- The digest of a record is over all its runs; there is none before the first run.
  abbrev pub HashFits : List (String × ℕ) → Option ℕ → Type 0
  HashFits pairs none = pairs ≡ []
  HashFits pairs (some h) = runs_hash c.digest c.as_hex pairs ≡ some h

  abbrev pub IsHashed : List RunRow → RecordRow → Type 0
  IsHashed runs r = HashFits (pairs_of r.id runs) r.runs_hash

  pub record IsConsistent (db : Db) : Type 0 where
    pub unique : Unique db.runs
    pub bodies : All HasBody db.runs
    pub refs : All (RefersLive db.runs) db.run_attachment_refs
    pub hashed : All (IsHashed db.runs) db.records

-- An update that leaves the keys leaves them unique.
pub Unique-update_where :
    (p : RunRow → Bool) (f : RunRow → RunRow)
    → ((u : RunRow) → (f u).record_id ≡ u.record_id)
    → ((u : RunRow) → (f u).run_id ≡ u.run_id)
    → (runs : List RunRow) → Unique runs
    → Unique (update_where p f runs)
unfolding update_where
Unique-update_where p f records ids [] h = tt
Unique-update_where p f records ids (u ∷ us) (fresh, more) = (
  All-update_where (λ v. is_run (applied p f u).record_id (applied p f u).run_id v ≡ false) p f
      (λ v h. is_run-applied (applied p f u).record_id (applied p f u).run_id p f records ids v ∙ h)
      us
      (All-map (λ v. is_run u.record_id u.run_id v ≡ false)
        (λ v. is_run (applied p f u).record_id (applied p f u).run_id v ≡ false)
        (λ v h.
          rw
            (
              applied_keeps (λ w. w.record_id) p f records u,
              applied_keeps (λ w. w.run_id) p f ids u,
            )
            h)
        us fresh),
  Unique-update_where p f records ids us more,
)

module _ (c : Crates) where
  IsHashed-same :
      (runs after : List RunRow)
      → ((r : ℕ) → pairs_of r after ≡ pairs_of r runs)
      → (r : RecordRow) → IsHashed c runs r
      → IsHashed c after r
  IsHashed-same runs after same r h = rw (same r.id) h

  -- Archiving keeps the tables consistent.
  pub mark-IsConsistent :
      (now r : ℕ) (i : String) (archived : Bool) (db : Db)
      → IsConsistent c db
      → IsConsistent c (mark now r i archived db)
  mark-IsConsistent now r i archived db h = record {
    unique =
        Unique-update_where (is_run r i) (archive_run now archived) (λ u. refl) (λ u. refl) db.runs
          h.unique;
    bodies =
        All-update_where HasBody (is_run r i) (archive_run now archived) (λ u b. archived_body u b)
          db.runs h.bodies;
    refs =
        All-map (RefersLive db.runs)
          (RefersLive (update_where (is_run r i) (archive_run now archived) db.runs))
          (λ a l. refers a l) db.run_attachment_refs h.refs;
    hashed =
        All-map (IsHashed c db.runs)
          (IsHashed c (update_where (is_run r i) (archive_run now archived) db.runs))
          (IsHashed-same db.runs (update_where (is_run r i) (archive_run now archived) db.runs)
            (λ s.
              pairs_of-update_where (is_run r i) (archive_run now archived) (λ u. refl) (λ u. refl)
                s db.runs))
          db.records h.hashed;
  }
    where
      archived_body :
          (u : RunRow) → HasBody u → HasBody (applied (is_run r i) (archive_run now archived) u)
      archived_body u b = elim (Bool-cases (is_run r i u)) [ inl e ↦ rw e b | inr e ↦ rw e b ]

      refers :
          (a : RunAttachmentRefRow)
          → RefersLive db.runs a
          → RefersLive (update_where (is_run r i) (archive_run now archived) db.runs) a
      refers a (u, e, live) = (
        applied (is_run r i) (archive_run now archived) u,
        find_run-update_where (is_run r i) (archive_run now archived) (λ v. refl) (λ v. refl)
              a.record_id a.run_id db.runs
            ∙ rw e refl,
        applied_keeps (λ v. v.tombstoned_at) (is_run r i) (archive_run now archived) (λ v. refl) u
            ∙ live,
      )

  -- Deleting keeps the tables consistent: the attachments of the run go with its body.
  pub bury-IsConsistent :
      (now r : ℕ) (i : String) (request : TombstoneRequest) (db : Db)
      → IsConsistent c db
      → IsConsistent c (bury now r i request db)
  bury-IsConsistent now r i request db h = record {
    unique =
        Unique-update_where (is_run r i) (bury_run now request) (λ u. refl) (λ u. refl) db.runs
          h.unique;
    bodies =
        All-update_where HasBody (is_run r i) (bury_run now request) (λ u b. buried_body u b)
          db.runs h.bodies;
    refs =
        All-not_deleted (RefersLive db.runs)
          (RefersLive (update_where (is_run r i) (bury_run now request) db.runs))
          (λ a. a.record_id == r && str_eq a.run_id i) (λ a ne l. refers a ne l)
          db.run_attachment_refs h.refs;
    hashed =
        All-map (IsHashed c db.runs)
          (IsHashed c (update_where (is_run r i) (bury_run now request) db.runs))
          (IsHashed-same db.runs (update_where (is_run r i) (bury_run now request) db.runs) (λ s.
            pairs_of-update_where (is_run r i) (bury_run now request) (λ u. refl) (λ u. refl) s
              db.runs))
          db.records h.hashed;
  }
    where
      buried_body :
          (u : RunRow) → HasBody u → HasBody (applied (is_run r i) (bury_run now request) u)
      buried_body u b = elim (Bool-cases (is_run r i u)) [ inl e ↦ rw e refl | inr e ↦ rw e b ]

      refers :
          (a : RunAttachmentRefRow)
          → same_key a.record_id a.run_id r i ≡ false
          → RefersLive db.runs a
          → RefersLive (update_where (is_run r i) (bury_run now request) db.runs) a
      refers a ne (u, e, live) = (
        u,
        find_run-update_where_other (bury_run now request) (λ v. refl) (λ v. refl) a.record_id r
              a.run_id i db.runs ne
            ∙ e,
        live,
      )
