-- ===== src/Store/ExtPaths.antt =====
-- crates/evalhub-store/src/registry.rs: the indexable paths of an extension schema.
pub mod Laws
pub mod Complete
use evalhub.Base.{String, Option, none, some, List, [], ◌∷◌, ◌++◌, if◌then◌else◌, str_eq, ◌>>=◌}
use evalhub.Json.{Value, object, Members, end, member, get, get_key, as_str}
use evalhub.Query.Ir.{ValueType, number, string, boolean}

pub record ExtPath : Type 0 where
  pub path : List String
  pub ty : ValueType

abbrev pub declared_type : Value → Option String
declared_type property = get_key property "type" >>= as_str

-- The types that have an index, by their names in a JSON Schema.
unfoldable pub scalar_type : String → Option ValueType
scalar_type t =
    if str_eq t "number"
    then some number
    else if str_eq t "integer"
    then some number
    else if str_eq t "string"
    then some string
    else if str_eq t "boolean"
    then some boolean
    else none

abbrev pub one_path : List String → Option ValueType → List ExtPath → List ExtPath
one_path path (some ty) other = record { path = path; ty = ty } ∷ []
one_path path none other = other

-- What one property gives, where `nested` is the walk below it.
abbrev pub by_type : List String → Option String → List ExtPath → List ExtPath
by_type path none nested = []
by_type path (some t) nested =
    one_path path (scalar_type t) (if str_eq t "object" then nested else [])

unfoldable mutual
  pub walk : Value → List String → List ExtPath
  walk (object ms) prefix = walk_at ms prefix
  walk _ prefix = []

  -- `schema.get("properties")`, walked.
  pub walk_at : Members → List String → List ExtPath
  walk_at end prefix = []
  walk_at (member key v ms) prefix =
      let here = walk_object v prefix in
      let later = walk_at ms prefix in if str_eq key "properties" then here else later

  pub walk_object : Value → List String → List ExtPath
  walk_object (object ms) prefix = walk_properties ms prefix
  walk_object _ prefix = []

  pub walk_properties : Members → List String → List ExtPath
  walk_properties end prefix = []
  walk_properties (member name property ms) prefix =
      let nested = walk property (prefix ++ (name ∷ [])) in
      by_type (prefix ++ (name ∷ [])) (declared_type property) nested ++ walk_properties ms prefix

abbrev pub from_schema : String → Option Value → Option (List ExtPath)
from_schema key none = none
from_schema key (some schema) = some (walk schema ("ext" ∷ key ∷ []))

-- `none` where the body has no `schema`
unfoldable pub typed_paths : String → Value → Option (List ExtPath)
typed_paths key body = from_schema key (get_key body "schema")
