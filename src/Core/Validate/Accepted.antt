-- ===== src/Core/Validate/Accepted.antt =====
-- About crates/evalhub-core/src/validate.rs: the rules on a record, each said on its own.
use evalhub.Base.{◌+◌, ◌≤◌, ◌≡◌, ◌⊎◌, String, true, Option, none, some, List, [], ◌>>=◌, is_some}
use evalhub.Base.Lists.{All, contains}
use evalhub.Json.{Value, Members, get, get_key, as_str, as_array, as_object, as_u64, keys}
use evalhub.Core.Ids.{is_valid_id, parse_relation_target}
use evalhub.Core.Attachments.Laws.{IsAdmissible, attachments_of}
use evalhub.Core.Validate.Record.{
  str_at, given, used_eval_records, facets_with_ext, non_null, count,
}

-- A rule on a key that may be absent.
abbrev pub WhenSome {ℓ κ} : {A : Type ℓ} → Option A → (A → Type κ) → Type κ
WhenSome none P = Unit
WhenSome (some a) P = P a

abbrev pub IsId : String → Type 0
IsId s = is_valid_id s ≡ true

-- Every `ext` key, of the body and of each facet, is an id.
abbrev pub HasExtIds : Members → Type 0
HasExtIds obj = WhenSome (get obj "ext" >>= as_object) (λ ext. All IsId (keys ext))

abbrev pub HasExtIdsEverywhere : Members → Type 0
HasExtIdsEverywhere obj =
    HasExtIds obj × All (λ facet. WhenSome (get obj facet >>= as_object) HasExtIds) facets_with_ext

-- The four outcomes add up to at most the attempts.
abbrev pub CountsAdd : Value → Type 0
CountsAdd c = WhenSome (get_key c "attempted" >>= as_u64) (λ attempted.
    count c "completed" + count c "failed" + count c "skipped" + count c "errored" ≤ attempted)

abbrev pub HasCounts : List Value → Option Value → Type 0
HasCounts results none = results ≡ []
HasCounts results (some c) = CountsAdd c

abbrev pub IsResult : Members → Value → Type 0
IsResult obj r =
    WhenSome (str_at r "metric") IsId
    × WhenSome (str_at r "samples_ref") (λ s. contains (attachments_of obj) s ≡ true)

abbrev pub HasResults : Members → Type 0
HasResults obj =
    WhenSome (get obj "results" >>= as_array)
      (λ results. All (IsResult obj) results × HasCounts results (non_null (get obj "counts")))

-- A judgement names a metric by id, carries a value or a label, and is of an Eval that the Card
-- uses.
abbrev pub IsRunResult : Members → Members → Type 0
IsRunResult obj item =
    WhenSome (get item "metric" >>= as_str) IsId
    × (((given item "value" ≡ true) ⊎ (given item "label" ≡ true))
        × WhenSome (get item "eval" >>= as_str) (λ e. contains (used_eval_records obj) e ≡ true))

abbrev pub HasRunResults : Members → Type 0
HasRunResults obj =
    WhenSome (get obj "run_results" >>= as_array)
      (λ items. All (λ item. WhenSome (as_object item) (IsRunResult obj)) items)

abbrev pub IsRelation : Value → Type 0
IsRelation rel =
    WhenSome (str_at rel "type") IsId
    × WhenSome (str_at rel "to") (λ to. is_some (parse_relation_target to) ≡ true)

abbrev pub HasRelations : Members → Type 0
HasRelations obj = WhenSome (get obj "relations" >>= as_array) (All IsRelation)

-- The rules on every record, and those on a Card.
pub record IsSoundRecord (obj : Members) : Type 0 where
  pub attachments : IsAdmissible [] (attachments_of obj)
  pub ext : HasExtIdsEverywhere obj
  pub relations : HasRelations obj

pub record IsSoundCard (obj : Members) : Type 0 where
  pub base : IsSoundRecord obj
  pub results : HasResults obj
  pub run_results : HasRunResults obj
