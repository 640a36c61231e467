-- ===== src/Store/Sql/Sorts/Order.antt =====
-- About crates/evalhub-store/src/query_sql.rs: the condition of a cursor against the order of the
-- rows.
use evalhub.Base.{
  ℕ, true, ◌≡◌, refl, ap, ◌∙◌, List, [], ◌∷◌, ◌++◌, inl, inr, Bool-cases, ◌==◌, ==_iff,
  if◌then◌else◌,
}
use mathlib.Core.Path.{subst}
use evalhub.Base.Lists.{length}
use evalhub.Query.Ir.{Dir, Cursor}
use evalhub.Store.Db.{ok}
use evalhub.Store.Db.Crates.{Crates}
use evalhub.Store.Sql.{sql}
use evalhub.Store.Sql.Sorts.{SortPlan, tiebreak, all_in, zip_keys, push_keyset}
use evalhub.Store.Sql.Sorts.Keyset.{
  RowTests, LastDir, no_keys, last_key, side_of, Bounds, plans_of, is_after, Reads, Condition, row,
  any_of, holds, print, clauses_of, last_clause,
}
use evalhub.Store.Sql.Sorts.Meaning.{clauses-is_after, row-is_after}
use evalhub.Store.Sql.Sorts.Pushed.{Reads-plans_of, push_row-print, push_mixed-print, pushed_and}

-- The condition that is pushed: a row comparison where all keys point one way.
unfoldable pub condition : Bounds → ℕ → Condition
condition bs id =
    let d = tiebreak (plans_of bs) in
    if all_in d (plans_of bs)
    then row bs (side_of d) id
    else any_of (clauses_of [] bs ++ last_clause bs (side_of d) id ∷ [])

condition-is_after :
    (t : RowTests) (bs : Bounds) (id : ℕ)
    → holds t (condition bs id) ≡ is_after t bs (tiebreak (plans_of bs)) id
unfolding condition holds
condition-is_after t bs id =
    let d = tiebreak (plans_of bs) in
    elim (Bool-cases (all_in d (plans_of bs))) [
      | inl e ↦ rw e (row-is_after t bs d id e)
      | inr e ↦ rw e (clauses-is_after t [] bs d id)
    ]

tiebreak-append : (before : List SortPlan) (p : SortPlan) → tiebreak (before ++ p ∷ []) ≡ p.dir
unfolding tiebreak
tiebreak-append [] p = refl
tiebreak-append (q ∷ []) p = refl
tiebreak-append (q ∷ s ∷ before) p = tiebreak-append (s ∷ before) p

tiebreak-LastDir : (sorts : List SortPlan) (d : Dir) → LastDir sorts d → tiebreak sorts ≡ d
unfolding tiebreak
tiebreak-LastDir sorts d (no_keys e) = rw e refl
tiebreak-LastDir sorts d (last_key before p e) = rw e (tiebreak-append before p)

module _ (c : Crates) (k : Cursor) where
  pushed-condition :
      (bs : Bounds)
      → length k.keys ≡ length (plans_of bs)
      → Reads c (zip_keys (plans_of bs) k.keys) bs
      → push_keyset c (plans_of bs) k ≡ ok (sql " AND " ∷ print (condition bs k.version_id))
  unfolding push_keyset condition
  pushed-condition bs h r =
      let d = tiebreak (plans_of bs) in
      let fine : (length k.keys == length (plans_of bs)) ≡ true = (==_iff _ _).1 h in
      elim (Bool-cases (all_in d (plans_of bs))) [
        | inl e ↦ rw (fine, e) (pushed_and (push_row-print c d k.version_id r))
        | inr e ↦ rw (fine, e) (pushed_and (push_mixed-print c d k.version_id r))
      ]

  -- A cursor with a value of the right type for each sort key pushes " AND " and the print of a
  -- condition that holds of a row, none of whose keys is NULL, exactly when the row is after the
  -- cursor: greater in the first key that differs where that key ascends, less where it descends, and
  -- then by the version's id in the direction of the last key, descending where there is none.
  pub push_keyset-is_after :
      (sorts : List SortPlan) (bs : Bounds) (d : Dir)
      → LastDir sorts d
      → length k.keys ≡ length sorts
      → Reads c (zip_keys sorts k.keys) bs
      → (cond : Condition) × ((push_keyset c sorts k ≡ ok (sql " AND " ∷ print cond))
          × ((t : RowTests) → holds t cond ≡ is_after t bs d k.version_id))
  push_keyset-is_after sorts bs d last h r =
      let is = Reads-plans_of c sorts k.keys h r in
      subst
        (λ ps.
          (cond : Condition) × ((push_keyset c ps k ≡ ok (sql " AND " ∷ print cond))
            × ((t : RowTests) → holds t cond ≡ is_after t bs d k.version_id)))
        is
        (
          condition bs k.version_id,
          (
            pushed-condition bs (rw is h) (rw is r),
            λ t.
                condition-is_after t bs k.version_id
                ∙ ap (λ e. is_after t bs e k.version_id)
                    (ap tiebreak is ∙ tiebreak-LastDir sorts d last),
          ),
        )
