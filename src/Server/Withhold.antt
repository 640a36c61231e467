-- ===== src/Server/Withhold.antt =====
-- crates/evalhub-server/src/api/relations.rs: what a read takes out of a record's body because the
-- reader may not see it. What is hidden, crates/evalhub-store/src/relations.rs says.
pub mod Elements
pub mod Relations
pub mod Laws
use evalhub.Base.{
  ℕ, ◌-◌, String, Bool, true, false, not, ◌&&◌, ◌||◌, ◌==◌, ltb, Option, none, some, List, [], ◌∷◌,
  if◌then◌else◌, str_eq, ◌>>=◌,
}
use evalhub.Base.Lists.{any, find, is_empty, length}
use evalhub.Base.Text.{split_once}
use evalhub.Core.Ids.{RelationTarget, parse_relation_target}
use evalhub.Json.{Value, Members, end, member, get_key, as_str, as_array, elems, from_elems}

-- crates/evalhub-store/src/relations.rs
pub record HiddenTarget : Type 0 where
  pub relation_type : String
  pub ns : String
  pub name : String
  pub seq : ℕ
  pub version_id : ℕ
  pub content_hash : ℕ

pub record HiddenEval : Type 0 where
  pub eval_record_id : ℕ
  pub ns : String
  pub name : String
  pub run_results : ℕ

-- The commitment, with the id and the digest as their values.
pub record WithheldRelation : Type 0 where
  pub relation_type : String
  pub version_id : ℕ
  pub content_hash : ℕ

pub record Withheld : Type 0 where
  pub relations : List WithheldRelation
  pub run_results : ℕ

abbrev pub on_array : (List Value → List Value) → Value → Value
on_array f (Value.array vs) = Value.array (from_elems (f (elems vs)))
on_array f v = v

-- `Map::get_mut`
abbrev pub update : Members → String → (Value → Value) → Members
update end key f = end
update (member k v ms) key f =
    if str_eq k key then member k (f v) ms else member k v (update ms key f)

-- `body.get_mut(key).and_then(Value::as_array_mut)`, changed in place
unfoldable pub change_elements : (List Value → List Value) → String → Value → Value
change_elements f key (Value.object ms) = Value.object (update ms key (on_array f))
change_elements f key body = body

abbrev pub or_empty : Option (List Value) → List Value
or_empty none = []
or_empty (some vs) = vs

unfoldable pub elements : String → Value → List Value
elements key body = or_empty (get_key body key >>= as_array)

abbrev pub same_target : String → String → String → ℕ → HiddenTarget → Bool
same_target type ns name seq h =
    ((str_eq h.relation_type type && str_eq h.ns ns) && str_eq h.name name) && h.seq == seq

abbrev pub found_at : List HiddenTarget → String → RelationTarget → Option HiddenTarget
found_at hidden type (RelationTarget.version ns name seq) =
    find (same_target type ns name seq) hidden
found_at hidden type _ = none

-- The hidden target that an element of `relations[]` names.
unfoldable pub found : List HiddenTarget → Value → Option HiddenTarget
found hidden element = get_key element "type" >>= as_str >>= λ type.
    get_key element "to" >>= as_str >>= parse_relation_target >>= found_at hidden type

abbrev pub kept : Option HiddenTarget → Value → List Value → List Value
kept none v vs = v ∷ vs
kept (some h) v vs = vs

unfoldable pub retain_relations : List HiddenTarget → List Value → List Value
unfolding found
retain_relations hidden [] = []
retain_relations hidden (v ∷ vs) = kept (found hidden v) v (retain_relations hidden vs)

unfoldable pub commitment : HiddenTarget → WithheldRelation
commitment h = record {
  relation_type = h.relation_type;
  version_id = h.version_id;
  content_hash = h.content_hash;
}

abbrev pub reported : Option HiddenTarget → List WithheldRelation → List WithheldRelation
reported none rs = rs
reported (some h) rs = commitment h ∷ rs

unfoldable pub removed_relations : List HiddenTarget → List Value → List WithheldRelation
unfolding found
removed_relations hidden [] = []
removed_relations hidden (v ∷ vs) = reported (found hidden v) (removed_relations hidden vs)

unfoldable pub withhold_relations : Value → List HiddenTarget → Value × List WithheldRelation
unfolding change_elements elements retain_relations removed_relations
withhold_relations body [] = (body, [])
withhold_relations body (h ∷ hs) = (
  change_elements (retain_relations (h ∷ hs)) "relations" body,
  removed_relations (h ∷ hs) (elements "relations" body),
)

-- Whether an element of `run_results[]` names a hidden Eval.
abbrev pub is_hidden : List HiddenEval → Option (String × String) → Bool
is_hidden hidden none = false
is_hidden hidden (some (ns, name)) =
    any (λ (h : HiddenEval). str_eq h.ns ns && str_eq h.name name) hidden

unfoldable pub names_hidden : List HiddenEval → Value → Bool
names_hidden hidden element =
    is_hidden hidden (get_key element "eval" >>= as_str >>= split_once b'/')

unfoldable pub retain_run_results : List HiddenEval → List Value → List Value
unfolding names_hidden
retain_run_results hidden [] = []
retain_run_results hidden (v ∷ vs) =
    let rest = retain_run_results hidden vs in if names_hidden hidden v then rest else v ∷ rest

unfoldable pub withhold_run_results : Value → List HiddenEval → Value × ℕ
unfolding change_elements elements retain_run_results
withhold_run_results body [] = (body, 0)
withhold_run_results body (h ∷ hs) = (
  change_elements (retain_run_results (h ∷ hs)) "run_results" body,
  length (elements "run_results" body)
      - length (retain_run_results (h ∷ hs) (elements "run_results" body)),
)

-- The body that is left, and what was taken out of it.
unfoldable pub withhold : Value → List HiddenTarget → List HiddenEval → Value × Option Withheld
unfolding withhold_relations withhold_run_results
withhold body hidden hidden_evals =
    let first = withhold_relations body hidden in
    let second = withhold_run_results first.0 hidden_evals in
    (
      second.0,
      if not (is_empty first.1) || ltb 0 second.1
          then some (record { relations = first.1; run_results = second.1 })
          else none,
    )
