-- ===== src/Store/UsedSet/Laws.antt =====
-- About crates/evalhub-store/src/used_set.rs: which run results a Card may carry.
use evalhub.Base.{
  ℕ, ◌≡◌, ◌↔◌, refl, true, false, Option, some, List, [], ◌∷◌, inl, inr, ltb, ◌==◌, is_some, arith,
  ==_iff, Bool-cases, Option-cases,
}
use evalhub.Base.Lists.{All, flat_map, filter_map, opt_cons, append-eq-nil}
use evalhub.Schema.{ErrorEntry}
use evalhub.Store.Rows.{select_where}
use evalhub.Store.Db.{RunRow}
use evalhub.Store.Runs.{find_run}
use evalhub.Store.UsedSet.{
  UsedSet, insert_id, id_set, RunResultRef, set_of, in_set, unresolved_entry, is_outside, is_of,
  outside_entry, outside_entries, check_run_results,
}

-- The run of a result is in the used set of the Eval that the result names.
abbrev pub InUsedSet : List (ℕ × UsedSet) → RunResultRef → Type 0
InUsedSet used item =
    (id : ℕ) × (item.eval_record_id ≡ some id) × (in_set (set_of used id) item.run_id ≡ true)

-- The set holds what was put in first.
flat_map-insert_id :
    (f : ℕ → List ErrorEntry) (id : ℕ) (ids : List ℕ)
    → flat_map f (insert_id id ids) ≡ []
    → f id ≡ []
unfolding insert_id
flat_map-insert_id f id [] h = (append-eq-nil (f id) [] h).0
flat_map-insert_id f id (i ∷ ids) h = elim (Bool-cases (id == i)) [
  | inl same ↦
      let k = rw same at h in rw ((==_iff id i).0 same) (append-eq-nil (f i) (flat_map f ids) k).0
  | inr other ↦ elim (Bool-cases (ltb id i)) [
    | inl below ↦
        (append-eq-nil (f id) (flat_map f (i ∷ ids)) (let k = rw (other, below) at h in k)).0
    | inr above ↦
        flat_map-insert_id f id ids
          (append-eq-nil (f i) (flat_map f (insert_id id ids))
            (let k = rw (other, above) at h in k)).1
  ]
]

flat_map-id_set :
    (f : ℕ → List ErrorEntry) (o : Option ℕ) (id : ℕ) (ids : List ℕ)
    → o ≡ some id
    → flat_map f (id_set (opt_cons o ids)) ≡ []
    → f id ≡ []
unfolding id_set
flat_map-id_set f o id ids e h = flat_map-insert_id f id (id_set ids) (rw e at h)

module _ (runs : List RunRow) (used : List (ℕ × UsedSet)) where
  outside_some :
      (item : RunResultRef)
      → is_outside used item ≡ true
      → (id : ℕ) × (item.eval_record_id ≡ some id)
  outside_some item h = elim (Option-cases item.eval_record_id) [
    | inl e ↦ absurd (let k = rw e at h in ground arith)
    | inr (id, e) ↦ (id, e)
  ]

  -- An element for which there are entries has one.
  outside_entry-some : (id : ℕ) (item : RunResultRef) → outside_entry runs id item ≡ [] → ⊥
  unfolding outside_entry
  outside_entry-some id item h = elim (Bool-cases (is_some (find_run id item.run_id runs))) [
    | inl e ↦ absurd (let k = rw e at h in ground arith)
    | inr e ↦ absurd (let k = rw e at h in ground arith)
  ]

  of_eval : (o : Option ℕ) (id : ℕ) → o ≡ some id → is_of id o ≡ true
  of_eval o id e = rw e ((==_iff id id).1 refl)

  -- The entries of an Eval have those of its first element.
  outside_entries-first :
      (item : RunResultRef) (rest : List RunResultRef) (id : ℕ)
      → is_of id item.eval_record_id ≡ true
      → outside_entries runs (item ∷ rest) id ≡ []
      → outside_entry runs id item ≡ []
  unfolding select_where
  outside_entries-first item rest id e h =
      (append-eq-nil (outside_entry runs id item)
        (flat_map (outside_entry runs id) (select_where (λ i. is_of id i.eval_record_id) rest))
        (rw e at h)).0

  -- If any element is outside its used set, one is reported.
  some_outside :
      (item : RunResultRef) (rest : List RunResultRef) (id : ℕ)
      → item.eval_record_id ≡ some id
      → flat_map
          (outside_entries runs (item ∷ rest))
          (id_set (filter_map (λ i. i.eval_record_id) (item ∷ rest)))
        ≡ []
      → ⊥
  some_outside item rest id e h = outside_entry-some id item (
      outside_entries-first item rest id (of_eval item.eval_record_id id e) (
        flat_map-id_set (outside_entries runs (item ∷ rest)) item.eval_record_id id
          (filter_map (λ i. i.eval_record_id) rest) e h))

  none_outside :
      (items : List RunResultRef)
      → flat_map
          (outside_entries runs (select_where (is_outside used) items))
          (id_set (filter_map (λ i. i.eval_record_id) (select_where (is_outside used) items)))
        ≡ []
      → All (λ i. is_outside used i ≡ false) items
  unfolding select_where
  none_outside [] h = tt
  none_outside (item ∷ items) h = elim (Bool-cases (is_outside used item)) [
    | inl out ↦
        let (id, e) = outside_some item out in
        absurd (some_outside item (select_where (is_outside used) items) id e (rw out at h))
    | inr inside ↦ (inside, none_outside items (rw inside at h))
  ]

  nothing_selected :
      (items : List RunResultRef)
      → All (InUsedSet used) items
      → select_where (is_outside used) items ≡ []
  unfolding select_where
  nothing_selected [] h = refl
  nothing_selected (item ∷ items) ((id, e, there), more) =
      rw (e, there, nothing_selected items more) refl

  nothing_unresolved :
      (items : List RunResultRef)
      → All (InUsedSet used) items
      → flat_map (λ i. unresolved_entry i.index i.eval_record_id) items ≡ []
  nothing_unresolved [] h = refl
  nothing_unresolved (item ∷ items) ((id, e, there), more) =
      rw (e, nothing_unresolved items more) refl

  in_set_of :
      (item : RunResultRef)
      → unresolved_entry item.index item.eval_record_id ≡ []
      → is_outside used item ≡ false
      → InUsedSet used item
  in_set_of item h inside = elim (Option-cases item.eval_record_id) [
    | inl e ↦ absurd (let k = rw e at h in ground arith)
    | inr (id, e) ↦ (id, e, let k = rw e at inside in ground arith)
  ]

  each_inside :
      (items : List RunResultRef)
      → flat_map (λ i. unresolved_entry i.index i.eval_record_id) items ≡ []
      → All (λ i. is_outside used i ≡ false) items
      → All (InUsedSet used) items
  each_inside [] h k = tt
  each_inside (item ∷ items) h (inside, more) =
      let (a, b) =
        append-eq-nil (unresolved_entry item.index item.eval_record_id)
          (flat_map (λ i. unresolved_entry i.index i.eval_record_id) items) h in
      (in_set_of item a inside, each_inside items b more)

-- Nothing is reported for the run results of a Card exactly when each names an Eval that resolved and
-- a run in the used set of that Eval.
pub check_run_results_iff :
    (runs : List RunRow) (items : List RunResultRef) (used : List (ℕ × UsedSet))
    → (check_run_results runs items used ≡ []) ↔ All (InUsedSet used) items
unfolding check_run_results id_set
check_run_results_iff runs items used = (
  (λ h.
      let (a, b) =
        append-eq-nil (flat_map (λ i. unresolved_entry i.index i.eval_record_id) items)
          (flat_map (outside_entries runs (select_where (is_outside used) items))
            (id_set (filter_map (λ i. i.eval_record_id) (select_where (is_outside used) items))))
          h in
      each_inside runs used items a (none_outside runs used items b)),
  λ h. rw (nothing_unresolved runs used items h, nothing_selected runs used items h) refl,
)
