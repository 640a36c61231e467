-- ===== src/Base/Text.antt =====
-- The operations of `str` that the program calls, as walks over the characters.
pub mod Laws
pub mod Order
use Prim.Native.Nat.{ℕ, compare, Ordering}
use Prim.Native.Char.{Char, code}
use Prim.Native.String
use Prim.Native.String.{String, [], ◌∷◌}
use mathlib.Core.Bool.{Bool, true, false, ◌&&◌, ◌||◌}
use mathlib.Core.Option.{Option, none, some}
use mathlib.Core.List.{List, [], ◌∷◌}
use evalhub.Base.Tests.{◌==◌, if◌then◌else◌}

-- `format!` pieces, joined
infixr 65 ◌+++◌
abbrev pub ◌+++◌ : String → String → String
s +++ t = String.◌++◌ s t

-- `s.contains(c)`
unfoldable pub has_char : ℕ → String → Bool
has_char c [] = false
has_char c (x ∷ s) = code x == c || has_char c s

-- `s.chars().all(p)`
unfoldable pub all_chars : (ℕ → Bool) → String → Bool
all_chars p [] = true
all_chars p (x ∷ s) = p (code x) && all_chars p s

abbrev cons_left : Char → Option (String × String) → Option (String × String)
cons_left x none = none
cons_left x (some (a, b)) = some (x ∷ a, b)

-- `s.split_once(c)`: at the first occurrence
unfoldable pub split_once : ℕ → String → Option (String × String)
split_once c [] = none
split_once c (x ∷ s) = if code x == c then some ([], s) else cons_left x (split_once c s)

abbrev rsplit_step : ℕ → Char → String → Option (String × String) → Option (String × String)
rsplit_step c x s (some (a, b)) = some (x ∷ a, b)
rsplit_step c x s none = if code x == c then some ([], s) else none

-- `s.rsplit_once(c)`: at the last occurrence
unfoldable pub rsplit_once : ℕ → String → Option (String × String)
rsplit_once c [] = none
rsplit_once c (x ∷ s) = rsplit_step c x s (rsplit_once c s)

-- `s.split_once("cd")` for a pattern of two characters
unfoldable pub split_once_pair : ℕ → ℕ → String → Option (String × String)
split_once_pair c d [] = none
split_once_pair c d (x ∷ []) = none
split_once_pair c d (x ∷ (y ∷ s)) =
    if code x == c && code y == d then some ([], s) else cons_left x (split_once_pair c d (y ∷ s))

-- `s.strip_prefix(p)`
unfoldable pub strip_prefix : String → String → Option String
strip_prefix [] s = some s
strip_prefix (p ∷ ps) [] = none
strip_prefix (p ∷ ps) (x ∷ s) = if code p == code x then strip_prefix ps s else none

abbrev cons_some : Char → Option String → Option String
cons_some x none = none
cons_some x (some s) = some (x ∷ s)

-- `s.strip_suffix(c)`
unfoldable pub strip_suffix : ℕ → String → Option String
strip_suffix c [] = none
strip_suffix c (x ∷ []) = if code x == c then some [] else none
strip_suffix c (x ∷ (y ∷ s)) = cons_some x (strip_suffix c (y ∷ s))

abbrev cons_head : Char → List String → List String
cons_head x [] = (x ∷ []) ∷ []
cons_head x (part ∷ parts) = (x ∷ part) ∷ parts

-- `s.split(c)`
unfoldable pub split : ℕ → String → List String
split c [] = [] ∷ []
split c (x ∷ s) = if code x == c then [] ∷ split c s else cons_head x (split c s)

-- `s.replace(c, r)` for one character
unfoldable pub replace : ℕ → String → String → String
replace c r [] = []
replace c r (x ∷ s) = if code x == c then r +++ replace c r s else x ∷ replace c r s

-- `str::cmp`: the byte order of UTF-8, which is the order of the code points
unfoldable pub cmp : String → String → Ordering
cmp [] [] = Ordering.eq
cmp [] (b ∷ t) = Ordering.lt
cmp (a ∷ s) [] = Ordering.gt
cmp (a ∷ s) (b ∷ t) = elim (compare (code a) (code b)) [
  | Ordering.lt ↦ Ordering.lt
  | Ordering.gt ↦ Ordering.gt
  | Ordering.eq ↦ cmp s t
]

-- `Ordering::then_with`
abbrev pub then_with : Ordering → Ordering → Ordering
then_with Ordering.eq next = next
then_with Ordering.lt next = Ordering.lt
then_with Ordering.gt next = Ordering.gt

-- `Ordering::is_gt`
abbrev pub is_gt : Ordering → Bool
is_gt Ordering.gt = true
is_gt _ = false
