-- ===== src/Core/Validate/RunTotal.antt =====
-- About crates/evalhub-core/src/validate.rs: `run` as a whole.
use evalhub.Base.{
  String, ◌≡◌, ◌↔◌, inl, inr, Bool, true, false, List, [], ◌∷◌, ◌++◌, arith, Bool-cases, ◌>>=◌,
  if◌then◌else◌, str_eq, eq_iff,
}
use evalhub.Base.Lists.{
  All, contains, append-eq-nil_iff, flat_map_from-eq-nil_iff, flat_map-eq-nil_iff, ↔_trans,
}
use evalhub.Base.Text.{◌+++◌}
use evalhub.Json.{Value, Members, get, get_key, as_str, as_object, as_array, keys}
use evalhub.Schema.{ErrorEntry}
use evalhub.Schema.Codes.{run_id_mismatch}
use evalhub.Core.Ids.{is_valid_run_id}
use evalhub.Core.Report.{push, escape_pointer}
use evalhub.Core.Report.Order.{sort-eq-nil_iff}
use evalhub.Core.Numbers.{numbers}
use evalhub.Core.Numbers.Laws.{AllFit, numbers-eq-nil_iff}
use evalhub.Core.Attachments.{attachment_paths}
use evalhub.Core.Attachments.Laws.{
  IsAdmissible, attachments_of, attachment_paths-silent_iff, ref_known-eq-nil_iff,
}
use evalhub.Core.Validate.{Validators, structural, run, run_collected}
use evalhub.Core.Validate.Record.{given, ext_keys_everywhere, if_some}
use evalhub.Core.Validate.Run.{
  status_expects, detail, status_rules, run_refs, run_metrics, run_body, run_semantic,
}
use evalhub.Core.Validate.Accepted.{WhenSome, IsId, HasExtIdsEverywhere}
use evalhub.Core.Validate.Laws.{
  if_some-eq-nil_iff, both, metric_id-eq-nil_iff, ext_keys_everywhere-eq-nil_iff,
}
use evalhub.Core.Validate.Total.{structural-eq-nil_iff}

-- `error` is given exactly when the status is `error`, `skip_reason` exactly when it is `skipped`;
-- a status that is none of the three is the document's to refuse.
abbrev pub PairsWith : Members → String → Type 0
PairsWith obj s =
    (s ≡ "ok" → (given obj "error" ≡ false) × (given obj "skip_reason" ≡ false))
    × ((s ≡ "error" → (given obj "error" ≡ true) × (given obj "skip_reason" ≡ false))
        × (s ≡ "skipped" → (given obj "error" ≡ false) × (given obj "skip_reason" ≡ true)))

abbrev pub HasStatusDetail : Members → Type 0
HasStatusDetail obj = WhenSome (get obj "status" >>= as_str) (PairsWith obj)

abbrev pub Names : Members → String → Type 0
Names obj p = contains (attachments_of obj) p ≡ true

-- What the body of a run says, for the id under which it is written.
pub record IsSoundBody (run_id : String) (obj : Members) : Type 0 where
  pub same_id : WhenSome (get obj "run_id" >>= as_str) (λ body_id. body_id ≡ run_id)
  pub status_detail : HasStatusDetail obj
  pub attachments : IsAdmissible [] (attachments_of obj)
  pub calls : WhenSome (get obj "calls" >>= as_str) (Names obj)
  pub artifacts :
      WhenSome (get obj "artifacts" >>= as_array) (All (λ a. WhenSome (as_str a) (Names obj)))
  pub log : WhenSome (get obj "error" >>= (λ e. get_key e "log") >>= as_str) (Names obj)
  pub metrics : WhenSome (get obj "metrics" >>= as_object) (λ m. All IsId (keys m))
  pub ext : HasExtIdsEverywhere obj

detail-eq-nil_iff :
    (obj : Members) (key : String) (wanted : Bool)
    → (detail obj key wanted ≡ []) ↔ (given obj key ≡ wanted)
unfolding detail
detail-eq-nil_iff obj key wanted = ground arith

pairs-eq-nil_iff :
    (obj : Members) (a b : Bool)
    → (detail obj "error" a ++ detail obj "skip_reason" b ≡ [])
      ↔ ((given obj "error" ≡ a) × (given obj "skip_reason" ≡ b))
pairs-eq-nil_iff obj a b =
    both _ _ (detail-eq-nil_iff obj "error" a) (detail-eq-nil_iff obj "skip_reason" b)

by_test : (b : Bool) (e : ErrorEntry) → ((if b then [] else e ∷ []) ≡ []) ↔ (b ≡ true)
by_test b e = ground arith

status_detail_iff :
    (obj : Members) (s : String)
    → (if_some
          (status_expects s)
          (λ wants. detail obj "error" wants.0 ++ detail obj "skip_reason" wants.1)
        ≡ [])
      ↔ PairsWith obj s
unfolding status_expects
status_detail_iff obj s =
    let ok = pairs-eq-nil_iff obj false false in
    let error = pairs-eq-nil_iff obj true false in
    let skipped = pairs-eq-nil_iff obj false true in
    let at = eq_iff s "ok" in
    let at' = eq_iff s "error" in
    let at'' = eq_iff s "skipped" in
    (
      λ e. (λ p. ok.0 (rw p at e), (λ p. error.0 (rw p at e), λ p. skipped.0 (rw p at e))),
      λ q. elim (Bool-cases (str_eq s "ok")) [
        | inl is ↦ rw is (ok.1 (q.0 (at.0 is)))
        | inr not_ok ↦ elim (Bool-cases (str_eq s "error")) [
          | inl is ↦ rw (not_ok, is) (error.1 (q.1.0 (at'.0 is)))
          | inr not_error ↦ elim (Bool-cases (str_eq s "skipped")) [
            | inl is ↦ rw (not_ok, not_error, is) (skipped.1 (q.1.1 (at''.0 is)))
            | inr other ↦ rw (not_ok, not_error, other)
          ]
        ]
      ],
    )

status_rules-eq-nil_iff : (obj : Members) → (status_rules obj ≡ []) ↔ HasStatusDetail obj
unfolding status_rules
status_rules-eq-nil_iff obj =
    if_some-eq-nil_iff (PairsWith obj) (get obj "status" >>= as_str) _ (status_detail_iff obj)

run_refs-eq-nil_iff :
    (obj : Members)
    → IsAdmissible [] (attachments_of obj)
    → (run_refs (attachment_paths obj).0 obj ≡ []) ↔ (
        WhenSome (get obj "calls" >>= as_str) (Names obj)
        × (WhenSome (get obj "artifacts" >>= as_array) (All (λ a. WhenSome (as_str a) (Names obj)))
            × WhenSome (get obj "error" >>= (λ e. get_key e "log") >>= as_str) (Names obj)))
run_refs-eq-nil_iff obj clean =
    both _ _
      (if_some-eq-nil_iff (Names obj) (get obj "calls" >>= as_str) _
        (λ c. ref_known-eq-nil_iff obj _ c clean))
      (both _ _
        (if_some-eq-nil_iff (All (λ a. WhenSome (as_str a) (Names obj)))
          (get obj "artifacts" >>= as_array) _
          (flat_map_from-eq-nil_iff (λ a. WhenSome (as_str a) (Names obj)) _
            (λ j a.
              if_some-eq-nil_iff (Names obj) (as_str a) _ (λ s. ref_known-eq-nil_iff obj _ s clean))
            0))
        (if_some-eq-nil_iff (Names obj) (get obj "error" >>= (λ e. get_key e "log") >>= as_str) _
          (λ l. ref_known-eq-nil_iff obj _ l clean)))

run_metrics-eq-nil_iff :
    (obj : Members)
    → (run_metrics obj ≡ []) ↔ WhenSome (get obj "metrics" >>= as_object) (λ m. All IsId (keys m))
run_metrics-eq-nil_iff obj =
    if_some-eq-nil_iff (λ m. All IsId (keys m)) (get obj "metrics" >>= as_object) _
      (λ m.
        flat_map-eq-nil_iff IsId _
          (λ key. metric_id-eq-nil_iff ("/metrics/" +++ escape_pointer key) key) (keys m))

abbrev body_id_rule : String → Members → List ErrorEntry
body_id_rule run_id obj =
    if_some (get obj "run_id" >>= as_str)
      (λ body_id. if str_eq body_id run_id then [] else push "/run_id" run_id_mismatch)

body_id_rule-eq-nil_iff :
    (run_id : String) (obj : Members)
    → (body_id_rule run_id obj ≡ [])
      ↔ WhenSome (get obj "run_id" >>= as_str) (λ body_id. body_id ≡ run_id)
body_id_rule-eq-nil_iff run_id obj =
    if_some-eq-nil_iff (λ body_id. body_id ≡ run_id) (get obj "run_id" >>= as_str) _
      (λ body_id. ground (arith, eq_iff body_id run_id))

run_body_iff :
    (run_id : String) (obj : Members) → (run_body run_id obj ≡ []) ↔ IsSoundBody run_id obj
run_body_iff run_id obj =
    let start = both (body_id_rule run_id obj) _ (body_id_rule-eq-nil_iff run_id obj) (
      both (status_rules obj) _ (status_rules-eq-nil_iff obj) (
        append-eq-nil_iff (attachment_paths obj).1 (
          run_refs (attachment_paths obj).0 obj
          ++ (run_metrics obj ++ ext_keys_everywhere obj)))) in
    let tail = λ (clean : IsAdmissible [] (attachments_of obj)).
      both _ _ (run_refs-eq-nil_iff obj clean)
        (both _ _ (run_metrics-eq-nil_iff obj) (ext_keys_everywhere-eq-nil_iff obj)) in
    let found = attachment_paths-silent_iff obj in
    (
      λ e.
          let (same, (status, (none_found, later))) = start.0 e in
          let ((calls, (artifacts, log)), (metrics, ext)) = (tail (found.0 none_found)).0 later in
          record {
            same_id = same;
            status_detail = status;
            attachments = found.0 none_found;
            calls = calls;
            artifacts = artifacts;
            log = log;
            metrics = metrics;
            ext = ext;
          },
      λ s. start.1 (
        s.same_id,
        (
          s.status_detail,
          (
            found.1 s.attachments,
            (tail s.attachments).1 ((s.calls, (s.artifacts, s.log)), (s.metrics, s.ext)),
          ),
        ),
      ),
    )

run_semantic_iff :
    (run_id : String) (value : Value)
    → (run_semantic run_id value ≡ [])
      ↔ ((is_valid_run_id run_id ≡ true) × WhenSome (as_object value) (IsSoundBody run_id))
unfolding run_semantic
run_semantic_iff run_id value = both _ _ (by_test (is_valid_run_id run_id) _) (
    if_some-eq-nil_iff (IsSoundBody run_id) (as_object value) (run_body run_id)
      (run_body_iff run_id))

-- A run is accepted exactly when it fits the run document, every integer in it fits a double, the
-- id under which it is written is valid, and its body keeps the rules on a run.
pub run_iff :
    (v : Validators) (run_id : String) (value : Value)
    → (run v run_id value ≡ []) ↔ (
        (v.run_errors value ≡ [])
        × (AllFit value
            × ((is_valid_run_id run_id ≡ true) × WhenSome (as_object value) (IsSoundBody run_id))))
unfolding run run_collected
run_iff v run_id value = ↔_trans (sort-eq-nil_iff _) (
    both (structural (v.run_errors value)) _ (structural-eq-nil_iff (v.run_errors value))
      (both (numbers "" value) _ (numbers-eq-nil_iff "" value) (run_semantic_iff run_id value)))
