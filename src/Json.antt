-- ===== src/Json.antt =====
-- The values that the crates read: `serde_json::Value`, with its accessors. An object is a map that
-- `serde_json` iterates in its stored order; `get` finds a key.
use evalhub.Base.{
  ℕ, String, Bool, true, false, Option, none, some, List, [], ◌∷◌, if◌then◌else◌, str_eq,
}

-- A finite double, exactly: the mantissa times 2^exponent, or over 2^exponent when `scaled_down`.
pub record Float : Type 0 where
  pub negative : Bool
  pub mantissa : ℕ
  pub scaled_down : Bool
  pub exponent : ℕ

-- The three forms of `serde_json::Number`: a `u64`, a negative `i64` (`neg_int n` is -(n + 1)), and
-- a double.
pub data Number : Type 0 where
  pos_int : ℕ → Number
  neg_int : ℕ → Number
  float : Float → Number

mutual
  pub data Value : Type 0 where
    null : Value
    bool : Bool → Value
    number : Number → Value
    string : String → Value
    array : Items → Value
    object : Members → Value

  pub data Items : Type 0 where
    nil : Items
    cons : Value → Items → Items

  pub data Members : Type 0 where
    end : Members
    member : String → Value → Members → Members

abbrev pub elems : Items → List Value
elems nil = []
elems (cons v vs) = v ∷ elems vs

abbrev pub from_elems : List Value → Items
from_elems [] = nil
from_elems (v ∷ vs) = cons v (from_elems vs)

abbrev pub entries : Members → List (String × Value)
entries end = []
entries (member k v ms) = (k, v) ∷ entries ms

abbrev pub keys : Members → List String
keys end = []
keys (member k v ms) = k ∷ keys ms

-- `Map::get`
unfoldable pub get : Members → String → Option Value
get end key = none
get (member k v ms) key = if str_eq k key then some v else get ms key

-- `Value::get` with a key: `None` on what is no object
abbrev pub get_key : Value → String → Option Value
get_key (object ms) key = get ms key
get_key _ key = none

abbrev pub as_str : Value → Option String
as_str (string s) = some s
as_str _ = none

abbrev pub as_array : Value → Option (List Value)
as_array (array vs) = some (elems vs)
as_array _ = none

abbrev pub as_object : Value → Option Members
as_object (object ms) = some ms
as_object _ = none

-- A non-negative integer; a double is none, whatever its value.
abbrev pub as_u64 : Value → Option ℕ
as_u64 (number (pos_int n)) = some n
as_u64 _ = none

abbrev pub is_null : Value → Bool
is_null null = true
is_null _ = false

abbrev pub is_number : Value → Bool
is_number (number n) = true
is_number _ = false

abbrev pub is_string : Value → Bool
is_string (string s) = true
is_string _ = false

abbrev pub is_boolean : Value → Bool
is_boolean (bool b) = true
is_boolean _ = false

-- `Map::insert` of a new key, or over an old one
unfoldable pub insert : Members → String → Value → Members
insert end key v = member key v end
insert (member k w ms) key v = if str_eq k key then member k v ms else member k w (insert ms key v)

-- `Value::pointer` of a pointer whose tokens are keys
unfoldable pub pointer : Value → List String → Option Value
pointer v [] = some v
pointer v (key ∷ rest) = elim (get_key v key) [ none ↦ none | some w ↦ pointer w rest ]
