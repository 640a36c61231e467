-- ===== src/Store/Runs/Ops/Life.antt =====
-- crates/evalhub-store/src/runs.rs: the life of one run, as its documentation tells it, which the
-- transactions implement.
use evalhub.Base.{
  ℕ, String, ◌≡◌, refl, Bool, true, false, Option, none, some, List, [], ◌∷◌, inl, inr, is_some,
  if◌then◌else◌, arith, eq_iff, Bool-cases, Option-cases,
}
use evalhub.Base.Lists.{All}
use evalhub.Store.Rows.{update_where}
use evalhub.Store.Db.{RunRow, Db}
use evalhub.Store.Db.Crates.{Crates}
use evalhub.Store.Runs.{is_run, find_run, archive_run, bury_run}
use evalhub.Store.Runs.Prepare.{Checked}
use evalhub.Store.Runs.Write.{overwrite, upsert_row, upsert, is_change, written_of, write_each}
use evalhub.Store.Runs.Table.{
  same_key, find_run-update_where_other, find_run-update_where_same, find_run-upsert_row_new,
  find_run-upsert_row_old, find_run-upsert_row_other, is_some-false,
}
use evalhub.Store.Runs.Consistent.Writes.{Alive, Alive-upsert}
use evalhub.Store.Runs.Moves.{
  Kind, writes, marks, deletes, Moves, here, next, Move, audited, marked, buried, written,
}
use evalhub.Store.Runs.Ops.{Op, kind_of, step, step-Moves, run_ops, run_ops-keeps}

-- A run has never been written, or is live with a content hash and perhaps archived, or is deleted,
-- and then keeps both.
pub data Life : Type 0 where
  absent : Life
  live : (hash : ℕ) (archived : Bool) → Life
  deleted : (hash : ℕ) (archived : Bool) → Life

abbrev row_life : Option ℕ → ℕ → Bool → Life
row_life none hash archived = live hash archived
row_life (some at) hash archived = deleted hash archived

abbrev pub life_of : Option RunRow → Life
life_of none = absent
life_of (some u) = row_life u.tombstoned_at u.content_hash (is_some u.archived_at)

abbrev pub life : ℕ → String → Db → Life
life r i db = life_of (find_run r i db.runs)

-- What a request of a kind may make of the life of the run `i`.
pub data LifeStep (i : String) : Kind → Life → Life → Type 0 where
  untouched : {k : Kind} {l : Life} → LifeStep i k l l
  create : (hash : ℕ) → LifeStep i writes absent (live hash false)
  replace :
      (hash other : ℕ) (archived : Bool)
      → LifeStep i writes (live hash archived) (live other archived)
  show :
      {run_id : String} (hash : ℕ) (archived other : Bool)
      → i ≡ run_id
      → LifeStep i (marks run_id other) (live hash archived) (live hash other)
  delete :
      {run_id : String} (hash : ℕ) (archived : Bool)
      → i ≡ run_id
      → LifeStep i (deletes run_id) (live hash archived) (deleted hash archived)

LifeStep-trans :
    {i : String} {k : Kind} {l m n : Life} → LifeStep i k l m → LifeStep i k m n → LifeStep i k l n
LifeStep-trans untouched s = s
LifeStep-trans (create h) untouched = create h
LifeStep-trans (create h) (replace _ o _) = create o
LifeStep-trans (replace h o a) untouched = replace h o a
LifeStep-trans (replace h o a) (replace _ p _) = replace h p a
LifeStep-trans (show h a o e) untouched = show h a o e
LifeStep-trans (show h a o e) (show _ _ p f) = show h a p e
LifeStep-trans (delete h a e) untouched = delete h a e

-- A statement on one row that takes a live run a step takes every run a step or leaves it.
edited :
    (f : RunRow → RunRow)
    → ((u : RunRow) → (f u).record_id ≡ u.record_id)
    → ((u : RunRow) → (f u).run_id ≡ u.run_id)
    → (k : String → Kind) (r s : ℕ) (i j : String) (runs : List RunRow) (u : RunRow)
    → find_run s j runs ≡ some u
    → LifeStep j (k j) (life_of (some u)) (life_of (some (f u)))
    → LifeStep i
        (k j)
        (life_of (find_run r i runs))
        (life_of (find_run r i (update_where (is_run s j) f runs)))
edited f records ids k r s i j runs u e step = elim (Bool-cases (same_key r i s j)) [
  | inr ne ↦ rw (find_run-update_where_other f records ids r s i j runs ne) untouched
  | inl same ↦
      let is_r : r ≡ s = ground (arith, eq_iff i j) in
      let is_i : i ≡ j = ground (arith, eq_iff i j) in
      rw (is_r, is_i, e, find_run-update_where_same f records ids s j runs u e) step
]

upsert_row-LifeStep :
    (now r s : ℕ) (i : String) (checked : Checked) (runs : List RunRow)
    → Alive s runs checked
    → LifeStep i writes
        (life_of (find_run r i runs))
        (life_of (find_run r i (upsert_row now s checked runs)))
upsert_row-LifeStep now r s i checked runs alive =
    elim (Bool-cases (same_key r i s checked.run_id)) [
      | inr ne ↦ rw (find_run-upsert_row_other now r s i checked runs ne) untouched
      | inl same ↦
          let is_r : r ≡ s = ground (arith, eq_iff i checked.run_id) in
          let is_i : i ≡ checked.run_id = ground (arith, eq_iff i checked.run_id) in
          rw (is_r, is_i)
            (elim (Option-cases (find_run s checked.run_id runs)) [
              | inl gone ↦
                  rw (gone, find_run-upsert_row_new now s checked runs gone)
                    (create checked.content_hash)
              | inr (u, there) ↦
                  let stands : u.tombstoned_at ≡ none =
                    is_some-false u.tombstoned_at (let x = rw there at alive in x) in
                  rw (there, find_run-upsert_row_old now s checked runs u there) (replaced u stands)
            ])
    ]
  where
    replaced :
        (u : RunRow)
        → u.tombstoned_at ≡ none
        → LifeStep checked.run_id writes
            (life_of (some u))
            (life_of (some (overwrite now checked u)))
    replaced u e = rw e (replace u.content_hash checked.content_hash (is_some u.archived_at))

write_each-LifeStep :
    (now r s : ℕ) (i : String) (existing : List RunRow) (checked : List Checked) (db : Db)
    → All (Alive s db.runs) checked
    → LifeStep i writes (life r i db) (life r i (write_each now existing s checked db))
unfolding write_each upsert
write_each-LifeStep now r s i existing [] db h = untouched
write_each-LifeStep now r s i existing (k ∷ ks) db (alive, more) =
    either (is_change (written_of existing s k).change)
      (LifeStep-trans (upsert_row-LifeStep now r s i k db.runs alive) (
        write_each-LifeStep now r s i existing ks (upsert now s k db)
          (Alive-upsert now s k db alive ks more)))
      (write_each-LifeStep now r s i existing ks db more)
  where
    either :
        (b : Bool)
        → LifeStep i writes
            (life r i db)
            (life r i (write_each now existing s ks (upsert now s k db)))
        → LifeStep i writes (life r i db) (life r i (write_each now existing s ks db))
        → LifeStep i writes
            (life r i db)
            (life r i (write_each now existing s ks (if b then upsert now s k db else db)))
    either true wrote left = wrote
    either false wrote left = left

module _ (c : Crates) (r : ℕ) (i : String) where
  Move-LifeStep :
      (k : Kind) (db after : Db) → Move c db k after → LifeStep i k (life r i db) (life r i after)
  Move-LifeStep k db after (audited rows) = untouched
  Move-LifeStep k db after (marked now s j archived u e stands) =
      edited (archive_run now archived) (λ v. refl) (λ v. refl) (λ j. marks j archived) r s i j
        db.runs u e (marked_run archived)
    where
      marked_run :
          (b : Bool)
          → LifeStep j (marks j b) (life_of (some u)) (life_of (some (archive_run now b u)))
      marked_run true = rw stands (show u.content_hash (is_some u.archived_at) true refl)
      marked_run false = rw stands (show u.content_hash (is_some u.archived_at) false refl)
  Move-LifeStep k db after (buried now s j request u e stands) =
      edited (bury_run now request) (λ v. refl) (λ v. refl) deletes r s i j db.runs u e
        (rw stands (delete u.content_hash (is_some u.archived_at) refl))
  Move-LifeStep k db after (written now s digest checked alive e) =
      write_each-LifeStep now r s i db.runs checked db alive

  -- On any database, one request leaves the life of any run of any record as it is, or changes it so:
  -- a put, of one run or of a batch, creates it live and not archived, or gives a live one a hash and
  -- keeps its archived mark; an archive or unarchive of the run's own id sets the mark of a live one
  -- to what was asked and keeps its hash; a tombstone of its own id deletes a live one and keeps
  -- both.
  pub step-LifeStep :
      (op : Op) (db : Db) → LifeStep i (kind_of op) (life r i db) (life r i (step c op db))
  step-LifeStep op db = all_moves (step-Moves c op db)
    where
      all_moves :
          {k : Kind} {before after : Db}
          → Moves c k before after
          → LifeStep i k (life r i before) (life r i after)
      all_moves here = untouched
      all_moves (next moves move) = LifeStep-trans (all_moves moves) (Move-LifeStep _ _ _ move)

  stuck :
      {k : Kind} {l m : Life} (hash : ℕ) (archived : Bool)
      → LifeStep i k l m
      → l ≡ deleted hash archived
      → m ≡ deleted hash archived
  stuck hash archived untouched e = e
  stuck hash archived (create h) e = absurd (ground arith)
  stuck hash archived (replace h o a) e = absurd (ground arith)
  stuck hash archived (show h a o f) e = absurd (ground arith)
  stuck hash archived (delete h a f) e = absurd (ground arith)

  -- A deleted run stays deleted, with its content hash and its archived mark, whatever requests
  -- come.
  pub run_ops-deleted :
      (ops : List Op) (db : Db) (hash : ℕ) (archived : Bool)
      → life r i db ≡ deleted hash archived
      → life r i (run_ops c ops db) ≡ deleted hash archived
  run_ops-deleted ops db hash archived =
      run_ops-keeps c (λ after. life r i after ≡ deleted hash archived)
        (λ k before after move. stuck hash archived (Move-LifeStep k before after move)) ops db
