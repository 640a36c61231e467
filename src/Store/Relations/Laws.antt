-- ===== src/Store/Relations/Laws.antt =====
-- About crates/evalhub-store/src/relations.rs: what an edge that is added changes, and what a reader
-- sees of its target.
use evalhub.Base.{
  ℕ, String, ◌≡◌, refl, true, false, Option, none, some, List, [], ◌∷◌, ◌++◌, inl, inr, str_eq, not,
  Bool-cases, ◌&&◌, ◌==◌,
}
use evalhub.Base.Lists.{any}
use evalhub.Json.{Value}
use evalhub.Schema.{ErrorEntry}
use evalhub.Store.Db.{CardEvalRunRow, Actor, Db, Result, ok}
use evalhub.Store.Db.After.{
  After, After-ok, After->>=, After->>, After-pure, After-raise, After-fetch, After-execute,
  After-append,
}
use evalhub.Store.Db.Crates.{Crates}
use evalhub.Store.Records.CardRuns.{uses_eval_type}
use evalhub.Store.UsedSet.{UsedSet, insert, insert_used, contains_id, lock_evals}
use evalhub.Store.Relations.{
  RelationTarget, VersionInfo, StoredRelation, version_info, record_used, extend_visible,
  extend_target, extend_used_set, extended, write_edge, add_from, add_to, add,
}

-- The same rows, with rows added behind them.
pub data Grows (rows : List CardEvalRunRow) : List CardEvalRunRow → Type 0 where
  same : Grows rows rows
  more :
      {mid : List CardEvalRunRow}
      → Grows rows mid
      → (row : CardEvalRunRow) → Grows rows (mid ++ row ∷ [])

insert_used-Grows :
    (version_id record_id : ℕ) (set : UsedSet) (base rows : List CardEvalRunRow)
    → Grows base rows
    → Grows base (insert_used version_id record_id set rows)
unfolding insert_used
insert_used-Grows v r [] base rows h = h
insert_used-Grows v r (used ∷ set) base rows h =
    elim (Bool-cases (
      any
        (λ (row : CardEvalRunRow).
          (row.card_version_id == v && row.eval_record_id == r) && str_eq row.run_id used.0)
        rows)) [
          | inl e ↦ rw e (insert_used-Grows v r set base rows h)
          | inr e ↦ rw e (insert_used-Grows v r set base _ (more h _))
        ]

insert-Grows :
    (version_id : ℕ) (used : List (ℕ × UsedSet)) (base rows : List CardEvalRunRow)
    → Grows base rows
    → Grows base (insert version_id used rows)
unfolding insert
insert-Grows v [] base rows h = h
insert-Grows v ((r, set) ∷ used) base rows h =
    insert-Grows v used base (insert_used v r set rows) (insert_used-Grows v r set base rows h)

-- The recorded used sets, before and after.
abbrev Growing : {A : Type 0} → Db → Result (A × Db) → Type 0
Growing db result = After (λ _ after. Grows db.card_eval_runs after.card_eval_runs) result

record_used-Growing :
    (id : ℕ) (used : List (ℕ × UsedSet)) (errors : List ErrorEntry) (db : Db)
    → Growing db (record_used id used errors db)
record_used-Growing id used [] db =
    After->> {P = λ _ d. Grows db.card_eval_runs d.card_eval_runs} _ _ db
      (After-execute _ db (insert-Grows id used db.card_eval_runs db.card_eval_runs same))
      (λ _ d h. After-pure true d h)
record_used-Growing id used (e ∷ es) db = After-raise _ db

module _ (from : VersionInfo) (attrs : Option Value) (writer_ns : List String) where
  extend_visible-Growing : (r : ℕ) (db : Db) → Growing db (extend_visible from r attrs writer_ns db)
  extend_visible-Growing r db =
      elim (Bool-cases (contains_id (lock_evals db (r ∷ []) writer_ns) r)) [
        | inl e ↦ rw e (record_used-Growing from.version_id _ _ db)
        | inr e ↦ rw e (After-pure false db same)
      ]

  extend_target-Growing :
      (t : Option VersionInfo) (db : Db) → Growing db (extend_target from attrs writer_ns t db)
  extend_target-Growing none db = After-pure true db same
  extend_target-Growing (some t) db = elim (Bool-cases (not (str_eq t.record_type "eval"))) [
    | inl e ↦ rw e (After-pure true db same)
    | inr e ↦ rw e (
        After->>= {P = λ _ d. d ≡ db} _ _ db (After-fetch _ _ db (λ _ _. refl))
          (λ _ d s. rw s (extend_visible-Growing t.record_id db)))
  ]

  extended-Growing :
      (type : String) (to : Option ℕ) (db : Db)
      → Growing db (extended from type to attrs writer_ns db)
  unfolding extend_used_set
  extended-Growing type none db = After-pure true db same
  extended-Growing type (some to) db =
      elim (Bool-cases (str_eq type uses_eval_type && str_eq from.record_type "card")) [
        | inl e ↦ rw e (extend_target-Growing (version_info db to) db)
        | inr e ↦ rw e (After-pure true db same)
      ]

module _ (c : Crates) (earlier : Db) (type : String) (t : RelationTarget) (attrs : Option Value)
    (actor : Actor) where
  add_from-Growing :
      (from : VersionInfo) (writer_ns : List String) (db : Db)
      → Growing db (add_from c earlier from type t attrs actor writer_ns db)
  unfolding write_edge
  add_from-Growing from writer_ns db =
      After->>= {P = λ _ d. Grows db.card_eval_runs d.card_eval_runs} _ _ db
        (After->>= {P = λ _ d. Grows db.card_eval_runs d.card_eval_runs} _ _ db
          (extended-Growing from attrs writer_ns type _ db)
          (λ seen d1 h1.
            After->> {P = λ _ d. Grows db.card_eval_runs d.card_eval_runs} _ _ d1
              (After-execute _ d1 h1)
              (λ _ d2 h2.
                After->> {P = λ _ d. Grows db.card_eval_runs d.card_eval_runs} _ _ d2
                  (After-append _ d2 h2) (λ _ d3 h3. After-pure _ d3 h3))))
        (λ to d h. After-pure _ d h)

  add_to-Growing :
      (writer_ns : List String) (id : ℕ) (from : Option VersionInfo) (db : Db)
      → Growing db (add_to c earlier type t attrs actor writer_ns id from db)
  add_to-Growing writer_ns id none db = After-raise _ db
  add_to-Growing writer_ns id (some from) db = add_from-Growing from _ db

  -- Adding an edge only ever adds to the used sets that Cards have recorded: every row stays, with
  -- the hash that it was recorded with.
  pub add-Grows :
      (from_id : ℕ) (writer_ns : List String) (db after : Db) (stored : StoredRelation)
      → add c earlier from_id type t attrs actor writer_ns db ≡ ok (stored, after)
      → Grows db.card_eval_runs after.card_eval_runs
  unfolding add
  add-Grows from_id writer_ns db after stored h =
      After-ok _ stored after (add_to-Growing writer_ns from_id (version_info earlier from_id) db) h
