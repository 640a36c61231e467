-- ===== src/Core/Numbers.antt =====
-- crates/evalhub-core/src/validate.rs, `numbers`: integers that a double cannot carry.
pub mod Laws
use evalhub.Base.{
  ℕ, ◌+◌, ◌*◌, ◌%◌, ◌^◌, String, Bool, true, false, ◌&&◌, Option, none, some, List, [], ◌++◌, ltb,
  ◌==◌, if◌then◌else◌,
}
use evalhub.Base.Text.{◌+++◌}
use evalhub.Base.Decimal.{decimal}
use evalhub.Json.{
  Float, Number, pos_int, neg_int, float, Value, null, bool, number, string, array, object, Items,
  nil, cons, Members, end, member,
}
use evalhub.Schema.{ErrorEntry}
use evalhub.Schema.Codes.{number_too_large}
use evalhub.Core.Report.{push, escape_pointer}

-- 2^53
abbrev pub max_safe_integer : ℕ
max_safe_integer = 9007199254740992

-- `as_i64`, then `unsigned_abs`
abbrev i64_abs : Number → Option ℕ
i64_abs (pos_int n) = if ltb n (2 ^ 63) then some n else none
i64_abs (neg_int n) = some (n + 1)
i64_abs (float f) = none

-- `f.fract() == 0.0`
abbrev pub is_whole : Float → Bool
is_whole f = if f.scaled_down then f.mantissa % 2 ^ f.exponent == 0 else true

-- `f.abs() > MAX_SAFE_INTEGER`, without the division
abbrev pub above_max : Float → Bool
above_max f =
    if f.scaled_down
    then ltb (max_safe_integer * 2 ^ f.exponent) f.mantissa
    else ltb max_safe_integer (f.mantissa * 2 ^ f.exponent)

abbrev not_i64 : Number → Bool
not_i64 (pos_int u) = ltb max_safe_integer u
not_i64 (neg_int n) = false
not_i64 (float f) = is_whole f && above_max f

abbrev by_i64 : Number → Option ℕ → Bool
by_i64 n (some i) = ltb max_safe_integer i
by_i64 n none = not_i64 n

unfoldable pub too_large : Number → Bool
too_large n = by_i64 n (i64_abs n)

unfoldable mutual
  pub numbers : String → Value → List ErrorEntry
  numbers path (number n) = if too_large n then push path number_too_large else []
  numbers path (array vs) = numbers_items path 0 vs
  numbers path (object ms) = numbers_members path ms
  numbers path _ = []

  pub numbers_items : String → ℕ → Items → List ErrorEntry
  numbers_items path i nil = []
  numbers_items path i (cons v vs) =
      numbers (path +++ "/" +++ decimal i) v ++ numbers_items path (i + 1) vs

  pub numbers_members : String → Members → List ErrorEntry
  numbers_members path end = []
  numbers_members path (member k v ms) =
      numbers (path +++ "/" +++ escape_pointer k) v ++ numbers_members path ms
