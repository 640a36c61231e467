-- ===== src/Store/Runs/Table.antt =====
-- About crates/evalhub-store/src/runs.rs: the statements on the table `runs`, row by row.
use mathlib.Core.Option.{map as map_option}
use mathlib.Core.List.{append-nil}
use evalhub.Base.{
  ℕ, String, ◌≡◌, refl, ap, ◌∙◌, Bool, true, false, ◌&&◌, Option, none, some, List, [], ◌∷◌, ◌++◌,
  map, inl, inr, ◌==◌, str_eq, eq_iff, eq_refl, is_some, arith, ==_iff, and-true, Bool-cases,
  Option-cases,
}
use evalhub.Base.Lists.{find}
use evalhub.Store.Rows.{update_where, select_where}
use evalhub.Store.Rows.Laws.{
  applied, find-update_where, find-append, find-true, map-select_where-update_where,
  select_where-append,
}
use evalhub.Store.Db.{RunRow}
use evalhub.Store.Runs.{is_run, find_run}
use evalhub.Store.Runs.Prepare.{Checked}
use evalhub.Store.Runs.Checks.{is_deleted}
use evalhub.Store.Runs.Write.{new_row, overwrite, upsert_row, hash_pair}

pub applied_keeps {ℓ} :
    {B : Type ℓ} (g : RunRow → B) (p : RunRow → Bool) (f : RunRow → RunRow)
    → ((u : RunRow) → g (f u) ≡ g u)
    → (u : RunRow) → g (applied p f u) ≡ g u
applied_keeps g p f kept u = elim (Bool-cases (p u)) [
  | inl here ↦ rw here (kept u)
  | inr away ↦ rw away refl
]

pub is_run-applied :
    (r : ℕ) (i : String) (p : RunRow → Bool) (f : RunRow → RunRow)
    → ((u : RunRow) → (f u).record_id ≡ u.record_id)
    → ((u : RunRow) → (f u).run_id ≡ u.run_id)
    → (u : RunRow) → is_run r i (applied p f u) ≡ is_run r i u
is_run-applied r i p f records ids u =
    rw (applied_keeps (λ v. v.record_id) p f records u, applied_keeps (λ v. v.run_id) p f ids u)
      refl

-- The key of a row that `is_run` finds.
pub is_run_key :
    (r : ℕ) (i : String) (u : RunRow) → is_run r i u ≡ true → (u.record_id ≡ r) × (u.run_id ≡ i)
is_run_key r i u h =
    let (a, b) = and-true (u.record_id == r) (str_eq u.run_id i) h in
    ((==_iff u.record_id r).0 a, (eq_iff u.run_id i).0 b)

-- Whether two keys are one.
abbrev pub same_key : ℕ → String → ℕ → String → Bool
same_key r i s j = r == s && str_eq i j

pub is_run-found :
    (r s : ℕ) (i j : String) (u : RunRow) → is_run r i u ≡ true → is_run s j u ≡ same_key r i s j
is_run-found r s i j u h = let (a, b) = is_run_key r i u h in rw (a, b) refl

pub is_run_self :
    (r : ℕ) (i : String) (u : RunRow) → u.record_id ≡ r → u.run_id ≡ i → is_run r i u ≡ true
is_run_self r i u a b = rw (a, b, eq_refl i) (ground arith)

module _ (p : RunRow → Bool) (f : RunRow → RunRow)
    (records : (u : RunRow) → (f u).record_id ≡ u.record_id)
    (ids : (u : RunRow) → (f u).run_id ≡ u.run_id) where
  pub find_run-update_where :
      (r : ℕ) (i : String) (runs : List RunRow)
      → find_run r i (update_where p f runs) ≡ map_option (applied p f) (find_run r i runs)
  unfolding find_run
  find_run-update_where r i runs =
      find-update_where (is_run r i) p f (is_run-applied r i p f records ids) runs

-- An update of one run leaves the others.
pub find_run-update_where_other :
    (f : RunRow → RunRow)
    → ((u : RunRow) → (f u).record_id ≡ u.record_id)
    → ((u : RunRow) → (f u).run_id ≡ u.run_id)
    → (r s : ℕ) (i j : String) (runs : List RunRow) → same_key r i s j ≡ false
    → find_run r i (update_where (is_run s j) f runs) ≡ find_run r i runs
unfolding find_run
find_run-update_where_other f records ids r s i j runs ne =
    find_run-update_where (is_run s j) f records ids r i runs
    ∙ elim (Option-cases (find (is_run r i) runs)) [
      | inl e ↦ rw e refl
      | inr (u, e) ↦
          let away : is_run s j u ≡ false =
            is_run-found r s i j u (find-true (is_run r i) runs u e) ∙ ne in
          rw (e, away) refl
    ]

-- … and makes of that run what it says.
pub find_run-update_where_same :
    (f : RunRow → RunRow)
    → ((u : RunRow) → (f u).record_id ≡ u.record_id)
    → ((u : RunRow) → (f u).run_id ≡ u.run_id)
    → (r : ℕ) (i : String) (runs : List RunRow) (u : RunRow) → find_run r i runs ≡ some u
    → find_run r i (update_where (is_run r i) f runs) ≡ some (f u)
unfolding find_run
find_run-update_where_same f records ids r i runs u e =
    find_run-update_where (is_run r i) f records ids r i runs
    ∙ rw (e, find-true (is_run r i) runs u e) refl

-- The ids and hashes of a record's runs.
abbrev pub pairs_of : ℕ → List RunRow → List (String × ℕ)
pairs_of r runs = map hash_pair (select_where (λ u. u.record_id == r) runs)

pub pairs_of-update_where :
    (p : RunRow → Bool) (f : RunRow → RunRow)
    → ((u : RunRow) → (f u).record_id ≡ u.record_id)
    → ((u : RunRow) → hash_pair (f u) ≡ hash_pair u)
    → (r : ℕ) (runs : List RunRow) → pairs_of r (update_where p f runs) ≡ pairs_of r runs
pairs_of-update_where p f records pairs r runs =
    map-select_where-update_where hash_pair (λ u. u.record_id == r) p f
      (λ u. ap (λ k. k == r) (applied_keeps (λ v. v.record_id) p f records u))
      (λ u _. applied_keeps hash_pair p f pairs u) runs

-- An upsert in one record leaves the runs of the others.
pub pairs_of-upsert_row :
    (now r s : ℕ) (checked : Checked) (runs : List RunRow)
    → (s == r) ≡ false
    → pairs_of r (upsert_row now s checked runs) ≡ pairs_of r runs
unfolding upsert_row select_where
pairs_of-upsert_row now r s checked runs ne =
    elim (Bool-cases (is_some (find_run s checked.run_id runs))) [
      | inl there ↦ rw there (
          map-select_where-update_where hash_pair (λ u. u.record_id == r) (is_run s checked.run_id)
            (overwrite now checked)
            (λ u.
              ap (λ k. k == r)
                (applied_keeps (λ v. v.record_id) (is_run s checked.run_id) (overwrite now checked)
                  (λ v. refl) u))
            (λ u mine. rw (is_run_other u mine) refl) runs)
      | inr gone ↦
          rw (gone, select_where-append (λ u. u.record_id == r) runs (new_row now s checked ∷ []))
            (let none_more : select_where (λ (u : RunRow). u.record_id == r)
                    (new_row now s checked ∷ [])
                  ≡ [] =
                new_row_elsewhere in
              rw (none_more, append-nil (select_where (λ (u : RunRow). u.record_id == r) runs))
                refl)
    ]
  where
    is_run_other : (u : RunRow) → (u.record_id == r) ≡ true → is_run s checked.run_id u ≡ false
    is_run_other u mine = ground (arith, ==_iff u.record_id s)

    new_row_elsewhere :
        select_where (λ (u : RunRow). u.record_id == r) (new_row now s checked ∷ []) ≡ []
    new_row_elsewhere = rw ne refl

pub is_some-false {ℓ} : {A : Type ℓ} (o : Option A) → is_some o ≡ false → o ≡ none
is_some-false none h = refl
is_some-false (some a) h = absurd (ground arith)

find_run-append :
    (r : ℕ) (i : String) (runs : List RunRow) (u : RunRow)
    → find_run r i (runs ++ u ∷ [])
      ≡ elim (find_run r i runs) [ some v ↦ some v | none ↦ find (is_run r i) (u ∷ []) ]
unfolding find_run
find_run-append r i runs u = find-append (is_run r i) runs (u ∷ [])

-- A run that has no row is written into a new one.
pub find_run-upsert_row_new :
    (now r : ℕ) (checked : Checked) (runs : List RunRow)
    → find_run r checked.run_id runs ≡ none
    → find_run r checked.run_id (upsert_row now r checked runs) ≡ some (new_row now r checked)
unfolding upsert_row
find_run-upsert_row_new now r checked runs gone = rw gone (
    find_run-append r checked.run_id runs (new_row now r checked)
    ∙ rw (gone, is_run_self r checked.run_id (new_row now r checked) refl refl) refl)

-- … and one that has a row is overwritten.
pub find_run-upsert_row_old :
    (now r : ℕ) (checked : Checked) (runs : List RunRow) (u : RunRow)
    → find_run r checked.run_id runs ≡ some u
    → find_run r checked.run_id (upsert_row now r checked runs) ≡ some (overwrite now checked u)
unfolding upsert_row
find_run-upsert_row_old now r checked runs u there = rw there (
    find_run-update_where_same (overwrite now checked) (λ v. refl) (λ v. refl) r checked.run_id runs
      u there)

pub find_run-upsert_row_same :
    (now r : ℕ) (checked : Checked) (runs : List RunRow)
    → is_deleted (find_run r checked.run_id runs) ≡ false
    → (u : RunRow) × (find_run r checked.run_id (upsert_row now r checked runs) ≡ some u)
      × (u.tombstoned_at ≡ none)
      × (u.content_hash ≡ checked.content_hash)
      × (u.body ≡ some checked.body)
find_run-upsert_row_same now r checked runs alive =
    elim (Option-cases (find_run r checked.run_id runs)) [
      | inl gone ↦
          (new_row now r checked, find_run-upsert_row_new now r checked runs gone, refl, refl, refl)
      | inr (u, there) ↦ (
        overwrite now checked u,
        find_run-upsert_row_old now r checked runs u there,
        is_some-false u.tombstoned_at (let x = rw there at alive in x),
        refl,
        refl,
      )
    ]

pub find_run-upsert_row_other :
    (now r s : ℕ) (i : String) (checked : Checked) (runs : List RunRow)
    → same_key r i s checked.run_id ≡ false
    → find_run r i (upsert_row now s checked runs) ≡ find_run r i runs
unfolding upsert_row
find_run-upsert_row_other now r s i checked runs ne =
    elim (Option-cases (find_run s checked.run_id runs)) [
      | inr (u, there) ↦ rw there (
          find_run-update_where_other (overwrite now checked) (λ v. refl) (λ v. refl) r s i
            checked.run_id runs ne)
      | inl gone ↦ rw gone (appended (find_run r i runs) refl)
    ]
  where
    away : is_run r i (new_row now s checked) ≡ false
    away = ground (arith, eq_iff i checked.run_id, eq_iff checked.run_id i)

    appended :
        (found : Option RunRow)
        → find_run r i runs ≡ found
        → find_run r i (runs ++ new_row now s checked ∷ []) ≡ find_run r i runs
    appended none e = find_run-append r i runs (new_row now s checked) ∙ rw (e, away) refl
    appended (some u) e = find_run-append r i runs (new_row now s checked) ∙ rw e refl
