-- ===== src/Query/Grammar.antt =====
-- crates/evalhub-query/src/grammar.rs: the filter as it is written, and the lowering of its JSON to the
-- tagged form that the builder of `dsl-kit` reads. Node ids, which only that builder mints, are
-- left out of the tree.
pub mod Laws
use evalhub.Base.{
  ℕ, zero, suc, ◌+◌, ◌⊎◌, inl, inr, String, Bool, true, false, ◌||◌, Option, none, some, List, [],
  ◌∷◌, ◌++◌, if◌then◌else◌, str_eq, leb, ltb, ◌>>=◌, is_some,
}
use evalhub.Base.Lists
use evalhub.Base.Lists.{find, length, flat_map, is_empty}
use evalhub.Base.Text.{◌+++◌}
use evalhub.Base.Decimal.{decimal}
use evalhub.Json.{
  Value, null, bool, number, string, array, object, Items, nil, cons, Members, end, member, get,
  keys, as_str, as_object, from_elems, entries,
}
use evalhub.Schema.{ErrorEntry}
use evalhub.Schema.Codes.{schema}
use evalhub.Core.Report.{push}

pub data ScalarOp : Type 0 where
  eq ne gt gte lt lte in_list prefix contains : ScalarOp

abbrev pub all_ops : List ScalarOp
all_ops = eq ∷ ne ∷ gt ∷ gte ∷ lt ∷ lte ∷ in_list ∷ prefix ∷ ScalarOp.contains ∷ []

unfoldable pub op_str : ScalarOp → String
op_str eq = "eq"
op_str ne = "ne"
op_str gt = "gt"
op_str gte = "gte"
op_str lt = "lt"
op_str lte = "lte"
op_str in_list = "in"
op_str prefix = "prefix"
op_str ScalarOp.contains = "contains"

unfoldable pub op_from_str : String → Option ScalarOp
op_from_str s = find (λ op. str_eq (op_str op) s) all_ops

pub record MatchTerm : Type 0 where
  pub op : ScalarOp
  pub value : Value

mutual
  pub data Filter : Type 0 where
    and or : Filters → Filter
    not : Filter → Filter
    compare : (path : String) (op : ScalarOp) (value : Value) → Filter
    exists : (path : String) → Filter
    any : (path : String) (terms : List (String × MatchTerm)) → Filter

  pub data Filters : Type 0 where
    no_filters : Filters
    add_filter : Filter → Filters → Filters

-- What lowering gives: the tagged value, and the problems found on the way.
abbrev pub Lowered : Type 0
Lowered = Value × List ErrorEntry

abbrev pub fault : String → Lowered
fault pointer = (null, push pointer schema)

unfoldable pub reject_extra_keys : Members → List String → String → List ErrorEntry
reject_extra_keys obj allowed pointer =
    flat_map
      (λ key. if Lists.contains allowed key then [] else push (pointer +++ "/" +++ key) schema)
      (keys obj)

abbrev pub tag : String → String → Value → Value
tag variant slot v = object (member slot v (member "type" (string variant) end))

-- Both forms of a term in the explicit one.
abbrev explicit : Value → Value → Value
explicit op value = object (member "op" op (member "value" value end))

abbrev op_or_eq : Option Value → Value
op_or_eq none = string "eq"
op_or_eq (some op) = op

abbrev explicit_term : Members → String → Option Value → Lowered
explicit_term obj pointer none =
    (null, reject_extra_keys obj ("op" ∷ "value" ∷ []) pointer ++ push pointer schema)
explicit_term obj pointer (some value) =
    (explicit (op_or_eq (get obj "op")) value, reject_extra_keys obj ("op" ∷ "value" ∷ []) pointer)

abbrev object_term : Members → String → Lowered
object_term ms pointer =
    if is_some (get ms "op") || is_some (get ms "value")
    then explicit_term ms pointer (get ms "value")
    else (explicit (string "eq") (object ms), [])

unfoldable pub lower_term : Value → String → Lowered
lower_term (object ms) pointer = object_term ms pointer
lower_term term pointer = (explicit (string "eq") term, [])

unfoldable pub lower_terms : Members → String → Members × List ErrorEntry
lower_terms end pointer = (end, [])
lower_terms (member key term ms) pointer =
    let (lowered, errors) = lower_term term (pointer +++ "/" +++ key) in
    let (rest, more) = lower_terms ms pointer in (member key lowered rest, errors ++ more)

abbrev any_node : String → Members × List ErrorEntry → Lowered
any_node path (terms, errors) = (
  object (
      member "path" (string path)
        (member "terms" (object terms) (member "type" (string "Any") end))),
  errors,
)

abbrev also : List ErrorEntry → Lowered → Lowered
also errors (v, more) = (v, errors ++ more)

abbrev match_object : String → String → Value → Lowered
match_object path pointer (object ms) = any_node path (lower_terms ms (pointer +++ "/match"))
match_object path pointer _ = fault (pointer +++ "/match")

abbrev match_terms : String → String → Option Value → Lowered
match_terms path pointer none = fault pointer
match_terms path pointer (some v) = match_object path pointer v

abbrev compare_node : String → String → String → Option Value → Lowered
compare_node path op pointer none = fault pointer
compare_node path op pointer (some value) = (
  object (
      member "op" (string op) (
        member "path" (string path) (member "type" (string "Compare") (member "value" value end)))),
  [],
)

abbrev by_op : Members → String → String → String → Lowered
by_op obj pointer path op =
    if str_eq op "exists"
    then (
      object (member "path" (string path) (member "type" (string "Exists") end)),
      reject_extra_keys obj ("path" ∷ "op" ∷ []) pointer,
    )
    else if str_eq op "any"
    then also (reject_extra_keys obj ("path" ∷ "op" ∷ "match" ∷ []) pointer)
        (match_terms path pointer (get obj "match"))
    else also (reject_extra_keys obj ("path" ∷ "op" ∷ "value" ∷ []) pointer)
        (compare_node path op pointer (get obj "value"))

abbrev op_text : Members → String → String → Option String → Lowered
op_text obj pointer path none = fault (pointer +++ "/op")
op_text obj pointer path (some op) = by_op obj pointer path op

abbrev with_op : Members → String → String → Option Value → Lowered
with_op obj pointer path none = fault pointer
with_op obj pointer path (some op) = op_text obj pointer path (as_str op)

abbrev path_text : Members → String → Option String → Lowered
path_text obj pointer none = fault (pointer +++ "/path")
path_text obj pointer (some path) = with_op obj pointer path (get obj "op")

abbrev with_path : Members → String → Option Value → Lowered
with_path obj pointer none = fault pointer
with_path obj pointer (some path) = path_text obj pointer (as_str path)

unfoldable pub lower_leaf : Members → String → Lowered
lower_leaf obj pointer = with_path obj pointer (get obj "path")

abbrev pub has_key : Members → String → Bool
has_key ms key = is_some (get ms key)

-- `object.len() > 1`
abbrev pub crowded : Members → Bool
crowded ms = ltb 1 (length (keys ms))

abbrev connective_node : String → String → String → Option (Items × List ErrorEntry) → Lowered
connective_node key variant pointer none = fault (pointer +++ "/" +++ key)
connective_node key variant pointer (some (lowered, errors)) =
    (tag variant "children" (array lowered), errors)

abbrev connective : Members → String → String → String → Option (Items × List ErrorEntry) → Lowered
connective ms key variant pointer children =
    if crowded ms then fault pointer else connective_node key variant pointer children

abbrev not_node : Lowered → Lowered
not_node (child, errors) = (tag "Not" "child" child, errors)

-- `children.as_array()` of the key that was found, lowered.
unfoldable mutual
  pub lower : Value → String → Lowered
  lower (object ms) pointer =
      let conj = connective ms "and" "And" pointer (lower_array_at ms "and" (pointer +++ "/and")) in
      let disj = connective ms "or" "Or" pointer (lower_array_at ms "or" (pointer +++ "/or")) in
      let neg =
        if crowded ms then fault pointer else not_node (lower_at ms "not" (pointer +++ "/not")) in
      if has_key ms "and"
      then conj
      else if has_key ms "or"
      then disj
      else if has_key ms "not"
      then neg
      else lower_leaf ms pointer
  lower _ pointer = fault pointer

  pub lower_at : Members → String → String → Lowered
  lower_at end key pointer = fault pointer
  lower_at (member k v ms) key pointer =
      let here = lower v pointer in
      let later = lower_at ms key pointer in if str_eq k key then here else later

  pub lower_array_at : Members → String → String → Option (Items × List ErrorEntry)
  lower_array_at end key pointer = none
  lower_array_at (member k v ms) key pointer =
      let here = lower_array v pointer in
      let later = lower_array_at ms key pointer in if str_eq k key then here else later

  pub lower_array : Value → String → Option (Items × List ErrorEntry)
  lower_array (array vs) pointer = some (lower_items vs pointer 0)
  lower_array _ pointer = none

  pub lower_items : Items → String → ℕ → Items × List ErrorEntry
  lower_items nil pointer i = (nil, [])
  lower_items (cons v vs) pointer i =
      let (lowered, errors) = lower v (pointer +++ "/" +++ decimal i) in
      let (rest, more) = lower_items vs pointer (i + 1) in (cons lowered rest, errors ++ more)

pub data Parsed {ℓ} (A : Type ℓ) : Type ℓ where
  ok : A → Parsed A
  err : List ErrorEntry → Parsed A

-- What the derived builder of `dsl-kit` makes of a tagged value: the tree, or its diagnostics, of
-- which only the number shows in the entries.
abbrev pub diagnostics_to_entries : ℕ → List ErrorEntry
diagnostics_to_entries zero = []
diagnostics_to_entries (suc n) = push "/where" schema ++ diagnostics_to_entries n

abbrev pub parsed : Filter ⊎ ℕ → Parsed Filter
parsed (inl ast) = ok ast
parsed (inr diagnostics) = err (diagnostics_to_entries diagnostics)

-- `build` is the derived builder: `serde_bridge::from_json_value`, then `Filter::from_parse_tree`.
module _ (build : Value → Filter ⊎ ℕ) where
  unfoldable pub parse : Value → Parsed Filter
  parse value =
      let (tagged, errors) = lower value "/where" in
      if is_empty errors then parsed (build tagged) else err errors
