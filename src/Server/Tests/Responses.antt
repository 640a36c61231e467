-- ===== src/Server/Tests/Responses.antt =====
-- The theorems on errors and on withheld elements at concrete inputs.
use evalhub.Base.{ℕ, String, ◌≡◌, ◌≢◌, ◌↔◌, refl, true, List, [], ◌∷◌}
use evalhub.Base.Lists.{All}
use evalhub.Base.Decimal.{digits_value}
use evalhub.Base.Text.{split_once, rsplit_once, strip_prefix, all_chars}
use evalhub.Core.Ids.{
  parse_relation_target, parse_version, hub_target, is_slug, slug_start, slug_char,
}
use evalhub.Json.{Value, Items, get, object, string, array, end, member}
use evalhub.Schema.Codes.{ErrorCode}
use evalhub.Store.Db.{RunRejection}
use evalhub.Server.Errors.{status, runs_rejected}
use evalhub.Server.Errors.Laws.{IsConflict, Some, runs_rejected_iff}
use evalhub.Server.Withhold.{HiddenTarget, HiddenEval, WithheldRelation, withhold, elements}
use evalhub.Server.Withhold.Relations.{Parted}
use evalhub.Server.Withhold.Laws.{PartedEval, said, withhold-Parted}

-- A deleted run, and a run of which an attachment is not there.
abbrev refused : List RunRejection
refused =
    record {
      index = 0;
      run_id = "r1";
      errors = record { path = "/run_id"; code = ErrorCode.run_deleted } ∷ [];
    }
    ∷ record {
      index = 3;
      run_id = "r4";
      errors = record { path = "/attachments/0"; code = ErrorCode.attachment_missing } ∷ [];
    }
    ∷ []

runs_rejected_iff_example :
    ((status (runs_rejected refused true) ≡ 409)
      ↔ (Some refused × All (λ r. All IsConflict r.errors) refused))
    × (status (runs_rejected refused true) ≢ 409 → status (runs_rejected refused true) ≡ 422)
runs_rejected_iff_example = runs_rejected_iff refused true

abbrev edge : String → Value
edge to = object (member "type" (string "derived_from") (member "to" (string to) end))

abbrev judgement : String → Value
judgement eval = object (member "eval" (string eval) end)

-- Two relations and two judgements, the first of each hidden.
abbrev two_of_each : Value
two_of_each = object (
    member "relations"
      (array (Items.cons (edge "lab/secret@1") (Items.cons (edge "lab/open@1") Items.nil)))
      (member "run_results"
        (array (Items.cons (judgement "lab/bench") (Items.cons (judgement "lab/public") Items.nil)))
        end))

abbrev secret : HiddenTarget
secret = record {
  relation_type = "derived_from";
  ns = "lab";
  name = "secret";
  seq = 1;
  version_id = 9;
  content_hash = 7;
}

abbrev bench : HiddenEval
bench = record { eval_record_id = 1; ns = "lab"; name = "bench"; run_results = 1 }

withhold-Parted_example :
    (rs : List WithheldRelation) × ((n : ℕ) × ((Parted
            (secret ∷ [])
            (elements "relations" two_of_each)
            (elements "relations" (withhold two_of_each (secret ∷ []) (bench ∷ [])).0)
            rs
          × PartedEval
              (bench ∷ [])
              (elements "run_results" two_of_each)
              (elements "run_results" (withhold two_of_each (secret ∷ []) (bench ∷ [])).0)
              n)
        × ((withhold two_of_each (secret ∷ []) (bench ∷ [])).1 ≡ said rs n)))
withhold-Parted_example = withhold-Parted two_of_each (secret ∷ []) (bench ∷ [])

withheld_relations :
    elements "relations" (withhold two_of_each (secret ∷ []) (bench ∷ [])).0
    ≡ edge "lab/open@1" ∷ []
unfolding withhold elements get parse_relation_target parse_version hub_target is_slug slug_start
    slug_char split_once rsplit_once strip_prefix all_chars digits_value
withheld_relations = refl
