-- ===== src/Core/Validate/Laws.antt =====
-- About crates/evalhub-core/src/validate.rs: each rule of `semantic` and what it asks.
use native.Mathlib.Omega.{arith}
use evalhub.Base.{
  ℕ, ◌+◌, ◌<◌, ◌^◌, ◌≡◌, refl, ◌↔◌, ◌⊎◌, inl, inr, String, Bool, true, false, not, ◌&&◌, Option,
  none, some, List, [], ◌∷◌, ◌++◌, if◌then◌else◌, ◌>>=◌, is_some,
}
use evalhub.Base.Lists.{
  All, contains, append-eq-nil_iff, flat_map_from-eq-nil_iff, flat_map-eq-nil_iff, ×_iff, ↔_trans,
  flat_map,
}
use evalhub.Base.Text.{◌+++◌}
use evalhub.Json.{Value, Members, get, get_key, as_str, as_array, as_object, as_u64, keys}
use evalhub.Schema.{card, eval, ErrorEntry}
use evalhub.Core.Ids.{parse_relation_target}
use evalhub.Core.Attachments.{attachment_paths}
use evalhub.Core.Attachments.Laws.{
  IsAdmissible, attachments_of, attachment_paths-silent_iff, ref_known-eq-nil_iff,
}
use evalhub.Core.Validate.Record.{
  if_some, str_at, metric_id, ext_key, ext_keys, ext_keys_everywhere, given, used_eval_records,
  run_result, run_results, counts_sum, non_null, counts_rule, result_rule, results_rules,
  relation_rule, relations_rules, object_rules, facets_with_ext, count,
}
use evalhub.Core.Validate.Accepted.{
  WhenSome, IsId, HasExtIds, HasExtIdsEverywhere, HasCounts, IsResult, HasResults, IsRunResult,
  HasRunResults, IsRelation, HasRelations, IsSoundRecord, IsSoundCard,
}

pub if_some-eq-nil_iff {ℓ κ} :
    {A : Type ℓ} (P : A → Type κ) (o : Option A) (f : A → List ErrorEntry)
    → ((a : A) → (f a ≡ []) ↔ P a)
    → (if_some o f ≡ []) ↔ WhenSome o P
if_some-eq-nil_iff P none f h = (λ e. tt, λ p. refl)
if_some-eq-nil_iff P (some a) f h = h a

pub both {ℓ κ} :
    {P : Type ℓ} {Q : Type κ} (xs ys : List ErrorEntry)
    → (xs ≡ []) ↔ P
    → (ys ≡ []) ↔ Q
    → (xs ++ ys ≡ []) ↔ (P × Q)
both xs ys f g = ↔_trans (append-eq-nil_iff xs ys) (×_iff f g)

pub metric_id-eq-nil_iff : (at m : String) → (metric_id at m ≡ []) ↔ IsId m
unfolding metric_id
metric_id-eq-nil_iff at m = ground arith

ext_keys-eq-nil_iff : (prefix : String) (obj : Members) → (ext_keys prefix obj ≡ []) ↔ HasExtIds obj
unfolding ext_keys
ext_keys-eq-nil_iff prefix obj =
    if_some-eq-nil_iff (λ ext. All IsId (keys ext)) (get obj "ext" >>= as_object)
      (λ ext. flat_map (ext_key prefix) (keys ext))
      (λ ext. flat_map-eq-nil_iff IsId (ext_key prefix) (λ key. ground arith) (keys ext))

pub ext_keys_everywhere-eq-nil_iff :
    (obj : Members) → (ext_keys_everywhere obj ≡ []) ↔ HasExtIdsEverywhere obj
unfolding ext_keys_everywhere
ext_keys_everywhere-eq-nil_iff obj = both (ext_keys "" obj) _ (ext_keys-eq-nil_iff "" obj) (
    flat_map-eq-nil_iff (λ facet. WhenSome (get obj facet >>= as_object) HasExtIds) _
      (λ facet.
        if_some-eq-nil_iff HasExtIds (get obj facet >>= as_object) _
          (λ f. ext_keys-eq-nil_iff ("/" +++ facet) f))
      facets_with_ext)

relations_rules-eq-nil_iff : (obj : Members) → (relations_rules obj ≡ []) ↔ HasRelations obj
unfolding relations_rules
relations_rules-eq-nil_iff obj =
    if_some-eq-nil_iff (All IsRelation) (get obj "relations" >>= as_array) _ (
      flat_map_from-eq-nil_iff IsRelation relation_rule
        (λ i rel. both _ _ (if_some-eq-nil_iff IsId (str_at rel "type") _ (λ t. ground arith)) (
          if_some-eq-nil_iff (λ to. is_some (parse_relation_target to) ≡ true) (str_at rel "to") _
            (λ to. ground arith)))
        0)

value_or_label :
    (a b : Bool) (e : ErrorEntry)
    → ((if not a && not b then e ∷ [] else []) ≡ []) ↔ ((a ≡ true) ⊎ (b ≡ true))
value_or_label true b e = (λ h. inl refl, λ h. refl)
value_or_label false true e = (λ h. inr refl, λ h. refl)
value_or_label false false e = (λ h. absurd (ground arith), λ h. absurd (ground arith))

run_result-eq-nil_iff :
    (obj : Members) (i : ℕ) (item : Members)
    → (run_result (used_eval_records obj) i item ≡ []) ↔ IsRunResult obj item
unfolding run_result
run_result-eq-nil_iff obj i item =
    both _ _
      (if_some-eq-nil_iff IsId (get item "metric" >>= as_str) _ (λ m. metric_id-eq-nil_iff _ m))
      (both _ _ (value_or_label (given item "value") (given item "label") _) (
        if_some-eq-nil_iff (λ e. contains (used_eval_records obj) e ≡ true)
          (get item "eval" >>= as_str) _ (λ e. ground arith)))

run_results-eq-nil_iff : (obj : Members) → (run_results obj ≡ []) ↔ HasRunResults obj
unfolding run_results
run_results-eq-nil_iff obj =
    if_some-eq-nil_iff (All (λ item. WhenSome (as_object item) (IsRunResult obj)))
      (get obj "run_results" >>= as_array) _
      (flat_map_from-eq-nil_iff (λ item. WhenSome (as_object item) (IsRunResult obj)) _
        (λ i item.
          if_some-eq-nil_iff (IsRunResult obj) (as_object item) _ (run_result-eq-nil_iff obj i))
        0)

counts_rule-eq-nil_iff :
    (results : List Value) (counts : Option Value)
    → WhenSome counts (λ c.
      count c "completed" + count c "failed" + count c "skipped" + count c "errored" < 2 ^ 64)
    → (counts_rule results counts ≡ []) ↔ HasCounts results counts
unfolding counts_sum
counts_rule-eq-nil_iff [] none h = (λ e. refl, λ e. refl)
counts_rule-eq-nil_iff (r ∷ rs) none h = ground arith
counts_rule-eq-nil_iff results (some c) h =
    if_some-eq-nil_iff _ (get_key c "attempted" >>= as_u64) _ (λ attempted. ground arith)

-- No count that the sum reads can make it wrap.
abbrev pub CountsFit : Members → Type 0
CountsFit obj =
    WhenSome (non_null (get obj "counts"))
      (λ c. count c "completed" + count c "failed" + count c "skipped" + count c "errored" < 2 ^ 64)

results_rules-eq-nil_iff :
    (obj : Members)
    → IsAdmissible [] (attachments_of obj)
    → CountsFit obj
    → (results_rules (attachment_paths obj).0 obj ≡ []) ↔ HasResults obj
unfolding results_rules
results_rules-eq-nil_iff obj clean fit =
    if_some-eq-nil_iff
      (λ results. All (IsResult obj) results × HasCounts results (non_null (get obj "counts")))
      (get obj "results" >>= as_array) _
      (λ results.
        both _ _
          (flat_map_from-eq-nil_iff (IsResult obj) (result_rule (attachment_paths obj).0)
            (λ i r.
              both _ _
                (if_some-eq-nil_iff IsId (str_at r "metric") _ (λ m. metric_id-eq-nil_iff _ m))
                (if_some-eq-nil_iff (λ s. contains (attachments_of obj) s ≡ true)
                  (str_at r "samples_ref") _ (λ s. ref_known-eq-nil_iff obj _ s clean)))
            0 results)
          (counts_rule-eq-nil_iff results (non_null (get obj "counts")) fit))

-- The rules on every record.
pub record_rules_iff : (obj : Members) → (object_rules eval obj ≡ []) ↔ IsSoundRecord obj
record_rules_iff obj =
    let (to, from) = both (attachment_paths obj).1 _ (attachment_paths-silent_iff obj) (
      both (ext_keys_everywhere obj) _ (ext_keys_everywhere-eq-nil_iff obj)
        (relations_rules-eq-nil_iff obj)) in
    (
      λ h. record { attachments = (to h).0; ext = (to h).1.0; relations = (to h).1.1 },
      λ s. from (s.attachments, (s.ext, s.relations)),
    )

after :
    (obj : Members)
    → CountsFit obj
    → IsAdmissible [] (attachments_of obj)
    → (ext_keys_everywhere obj
          ++ ((results_rules (attachment_paths obj).0 obj ++ run_results obj)
              ++ relations_rules obj)
        ≡ [])
      ↔ (HasExtIdsEverywhere obj × ((HasResults obj × HasRunResults obj) × HasRelations obj))
after obj fit clean = both (ext_keys_everywhere obj) _ (ext_keys_everywhere-eq-nil_iff obj) (
    both _ _ (both _ _ (results_rules-eq-nil_iff obj clean fit) (run_results-eq-nil_iff obj))
      (relations_rules-eq-nil_iff obj))

pub card_rules_iff :
    (obj : Members) → CountsFit obj → (object_rules card obj ≡ []) ↔ IsSoundCard obj
card_rules_iff obj fit = (
  λ h.
      let (found, rest) = (append-eq-nil_iff (attachment_paths obj).1 _).0 h in
      let clean = (attachment_paths-silent_iff obj).0 found in
      let (to, from) = after obj fit clean in
      let (ext, ((results, judged), relations)) = to rest in
      record {
        base = record { attachments = clean; ext = ext; relations = relations };
        results = results;
        run_results = judged;
      },
  λ s.
      let (to, from) = after obj fit s.base.attachments in
      (append-eq-nil_iff (attachment_paths obj).1 _).1 (
        (attachment_paths-silent_iff obj).1 s.base.attachments,
        from (s.base.ext, ((s.results, s.run_results), s.base.relations)),
      ),
)
