-- ===== src/Core/Tests.antt =====
-- The theorems of the core at concrete inputs.
use mathlib.Core.List.{Perm}
use mathlib.Core.List.Perm
use evalhub.Core.Runs.{runs_hash}
use evalhub.Core.Runs.Laws.{runs_hash-perm}
use evalhub.Base.{none, String, ◌≡◌, ◌↔◌, refl, true, false, some, List, [], ◌∷◌, arith}
use evalhub.Base.Lists.{All, contains}
use evalhub.Base.Text.{split, split_once, strip_prefix, all_chars, has_char}
use evalhub.Json.{
  Value, null, number, string, array, object, nil, cons, end, member, pos_int, as_object, Members,
  get,
}
use evalhub.Schema.{eval_schema, card, eval}
use evalhub.Schema.Codes.{runs_moved}
use evalhub.Core.Ids.{
  RelationTarget, version, parse_relation_target, is_valid_id, is_valid_run_id, is_slug, slug_start,
  slug_char,
}
use evalhub.Core.Ids.Laws.{parse_relation_target-to_text, IsTarget, to_text}
use evalhub.Core.Report.{push, escape_pointer}
use evalhub.Core.Report.Order.{IsSorted}
use evalhub.Core.Report.Pointers.{unescape_pointer, unescape-escape_pointer}
use evalhub.Core.Numbers.{numbers, too_large}
use evalhub.Core.Report.{sort}
use evalhub.Core.Validate.{structural, run_collected}
use evalhub.Core.Validate.Run.{run_semantic, status_rules, status_expects, detail}
use evalhub.Core.Validate.Record.{
  given, semantic, ext_keys_everywhere, ext_keys, results_rules, relations_rules, run_results,
}
use evalhub.Core.Numbers.Laws.{AllFit}
use evalhub.Core.Attachments.{attachment_paths, attachment_loop, attachment_step, path_fault}
use evalhub.Core.Attachments.Laws.{IsAdmissible, attachments_of, attachment_paths-silent_iff}
use evalhub.Core.Validate.{Validators, validate, collected, run, runs_moved_here}
use evalhub.Core.Validate.Accepted.{WhenSome, IsSoundCard, IsSoundRecord}
use evalhub.Core.Validate.Total.{
  FitsDocument, validate_card_iff, validate_eval_iff, validate-IsSorted, HasMovedRuns,
}
use evalhub.Core.Validate.RunTotal.{IsSoundBody, run_iff}
use evalhub.Core.Facets.{Facet, for_kind, facet_str, fingerprints}
use evalhub.Core.Facets.Digests.{SameBut, SameFacet, Agree, fingerprints-SameFacet}
use evalhub.Core.Badge.{BadgeInput, all_badges, compute}
use evalhub.Core.Badge.Laws.{Awards, compute-Awards}

-- Validators that find nothing wrong.
abbrev lenient : Validators
lenient = record { record_errors = λ id value. []; run_errors = λ value. [] }

abbrev log_attachment : Value
log_attachment = object (member "path" (string "logs/run.txt") end)

-- A Card with one attachment, one count too many, and an extension of its own.
abbrev card_body : Members
card_body = member "schema" (string "evalhub.card/1.1") (
    member "attachments" (array (cons log_attachment nil)) (
      member "ext" (object (member "acme/ci" (number (pos_int 7)) end)) (
        member "model" (object (member "id" (string "m-1") (member "note" (string "n") end))) end)))

abbrev eval_body : Members
eval_body = member "schema" (string "evalhub.eval/1.0") (member "runs" (array nil) end)

abbrev run_body : Members
run_body = member "run_id" (string "r-1") (member "status" (string "ok") (member "model" null end))

card_body-accepted : validate lenient card (object card_body) ≡ []
unfolding validate runs_moved_here collected structural numbers semantic sort get too_large
    attachment_paths attachment_loop attachment_step path_fault strip_prefix split contains
    ext_keys_everywhere ext_keys is_valid_id split_once is_slug slug_start all_chars slug_char
    results_rules relations_rules run_results
card_body-accepted = refl

validate_card_iff_example :
    FitsDocument lenient card (object card_body)
    × (AllFit (object card_body) × WhenSome (as_object (object card_body)) IsSoundCard)
validate_card_iff_example = (validate_card_iff lenient (object card_body)).0 card_body-accepted

-- An Eval of the current version with the same attachment.
abbrev sound_eval : Members
sound_eval =
    member "schema" (string eval_schema)
      (member "attachments" (array (cons log_attachment nil)) end)

sound_eval-accepted : validate lenient eval (object sound_eval) ≡ []
unfolding validate runs_moved_here collected structural numbers semantic sort get too_large
    attachment_paths attachment_loop attachment_step path_fault strip_prefix split contains
    ext_keys_everywhere ext_keys is_valid_id split_once is_slug slug_start all_chars slug_char
    results_rules relations_rules run_results
sound_eval-accepted = refl

validate_eval_iff_example :
    (¬ HasMovedRuns (object sound_eval))
    × (FitsDocument lenient eval (object sound_eval)
        × (AllFit (object sound_eval) × WhenSome (as_object (object sound_eval)) IsSoundRecord))
validate_eval_iff_example = (validate_eval_iff lenient (object sound_eval)).0 sound_eval-accepted

validate-IsSorted_example :
    IsSorted (validate lenient eval (object eval_body))
    × (((¬ ((eval ≡ eval) × HasMovedRuns (object eval_body)))
          → Perm
              (validate lenient eval (object eval_body))
              (collected lenient eval (object eval_body)))
        × ((eval ≡ eval) × HasMovedRuns (object eval_body)
            → validate lenient eval (object eval_body) ≡ push "/runs" runs_moved))
validate-IsSorted_example = validate-IsSorted lenient eval (object eval_body)

run_body-accepted : run lenient "r-1" (object run_body) ≡ []
unfolding run run_collected run_semantic is_valid_run_id has_char status_rules status_expects detail
    given structural numbers sort get too_large attachment_paths attachment_loop attachment_step
    path_fault strip_prefix split contains ext_keys_everywhere ext_keys is_valid_id split_once
    is_slug slug_start all_chars slug_char
run_body-accepted = refl

run_iff_example :
    (lenient.run_errors (object run_body) ≡ [])
    × (AllFit (object run_body)
        × ((is_valid_run_id "r-1" ≡ true)
            × WhenSome (as_object (object run_body)) (IsSoundBody "r-1")))
run_iff_example = (run_iff lenient "r-1" (object run_body)).0 run_body-accepted

abbrev third_version : RelationTarget
third_version = version "acme" "bench" 3

third_version-IsTarget : IsTarget third_version
unfolding is_slug slug_start all_chars slug_char
third_version-IsTarget = (refl, refl, (λ e. absurd (omega (arith, e))), omega arith)

parse_relation_target-to_text_example :
    parse_relation_target (to_text third_version) ≡ some third_version
parse_relation_target-to_text_example =
    parse_relation_target-to_text third_version third_version-IsTarget

unescape-escape_pointer_example :
    (unescape_pointer (escape_pointer "a/b~c") ≡ "a/b~c")
    × (has_char b'/' (escape_pointer "a/b~c") ≡ false)
unescape-escape_pointer_example = unescape-escape_pointer "a/b~c"

attachment_paths-silent_iff_example :
    ((attachment_paths card_body).1 ≡ []) ↔ IsAdmissible [] (attachments_of card_body)
attachment_paths-silent_iff_example = attachment_paths-silent_iff card_body

-- The keys that are excluded in every facet.
abbrev excluded : Facet → List String
excluded f = "ext" ∷ "note" ∷ []

-- The Card's model with another note, and with a facet that has no other key.
abbrev renoted : Members
renoted =
    member "model" (object (member "note" (string "m") (member "id" (string "m-1") end)))
      (member "env" (object (member "ext" null end)) end)

agree : All (Agree excluded (object card_body) (object renoted)) (for_kind eval)
unfolding for_kind get facet_str contains
agree = (
  SameFacet.objects (
      SameBut.right "note" (string "m") refl
        (SameBut.both "id" (string "m-1") (SameBut.left "note" (string "n") refl SameBut.nil))),
  (
    SameFacet.one none,
    (
      SameFacet.one none,
      (
        SameFacet.one none,
        (SameFacet.one none, (SameFacet.set (SameBut.right "ext" null refl SameBut.nil), tt)),
      ),
    ),
  ),
)

fingerprints-SameFacet_example :
    fingerprints excluded (λ v. some v) eval (object card_body)
    ≡ fingerprints excluded (λ v. some v) eval (object renoted)
fingerprints-SameFacet_example =
    fingerprints-SameFacet excluded (λ v. some v) eval (object card_body) (object renoted) agree

abbrev registered : BadgeInput
registered = record {
  all_refs_resolved = true;
  harness_registered = false;
  all_metrics_registered = true;
}

compute-Awards_example :
    Awards (object card_body) registered all_badges (compute (object card_body) registered)
compute-Awards_example = compute-Awards (object card_body) registered

-- A hash that keeps what it hashed, written as its text.
abbrev text_of : Value → String
text_of (string s) = s
text_of _ = ""

abbrev two_runs : List (String × Value)
two_runs = ("r-2", string "bb") ∷ ("r-1", string "aa") ∷ []

abbrev in_order : List (String × Value)
in_order = ("r-1", string "aa") ∷ ("r-2", string "bb") ∷ []

runs_hash-perm_example :
    runs_hash (λ v. some v) text_of two_runs ≡ runs_hash (λ v. some v) text_of in_order
runs_hash-perm_example =
    runs_hash-perm (λ v. some v) text_of two_runs in_order
      (Perm.swap ("r-1", string "aa") ("r-2", string "bb") [])
