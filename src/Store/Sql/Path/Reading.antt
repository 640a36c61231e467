-- ===== src/Store/Sql/Path/Reading.antt =====
-- How the database reads the literal of a path. A text of a statement stands between quotes and doubles
-- each quote in it; the text of an array stands between braces, each element between double quotes,
-- with a backslash before what is to be taken as it is.
use Prim.Native.Char.{Char}
use evalhub.Base.{
  code, String, Bool, true, false, Option, none, some, List, [], ◌∷◌, ◌==◌, if◌then◌else◌,
}

abbrev pub cons_some : Char → Option String → Option String
cons_some c none = none
cons_some c (some s) = some (String.◌∷◌ c s)

-- The text behind the opening quote, to the quote that ends it, which ends the literal; `quote` says
-- that a quote was read just now.
unfoldable pub inside : (quote : Bool) → String → Option String
inside false String.[] = none
inside true String.[] = some ""
inside false (String.◌∷◌ c s) =
    let after = inside true s in
    let on = cons_some c (inside false s) in if code c == b'\'' then after else on
inside true (String.◌∷◌ c s) =
    let on = cons_some c (inside false s) in if code c == b'\'' then on else none

unfoldable pub sql_text : String → Option String
unfolding inside
sql_text String.[] = none
sql_text (String.◌∷◌ c s) = let rest = inside false s in if code c == b'\'' then rest else none

-- What comes next in the text of an array: an element, its characters, a character taken as it is,
-- what follows an element.
pub data Mode : Type 0 where
  element characters taken behind : Mode

abbrev pub cons_head : Char → Option (List String) → Option (List String)
cons_head c none = none
cons_head c (some []) = none
cons_head c (some (s ∷ ss)) = some (String.◌∷◌ c s ∷ ss)

abbrev pub new_head : Option (List String) → Option (List String)
new_head none = none
new_head (some ss) = some ("" ∷ ss)

abbrev pub at_end : String → Option (List String)
at_end String.[] = some []
at_end (String.◌∷◌ c s) = none

unfoldable pub items : Mode → String → Option (List String)
items mode String.[] = none
items element (String.◌∷◌ c s) = let on = items characters s in if code c == b'"' then on else none
items characters (String.◌∷◌ c s) =
    let stop = new_head (items behind s) in
    let escaped = items taken s in
    let on = cons_head c (items characters s) in
    if code c == b'"' then stop else if code c == b'\\' then escaped else on
items taken (String.◌∷◌ c s) = cons_head c (items characters s)
items behind (String.◌∷◌ c s) =
    let more = items element s in
    if code c == b',' then more else if code c == b'}' then at_end s else none

unfoldable pub array_of : String → Option (List String)
unfolding items
array_of String.[] = none
array_of (String.◌∷◌ c s) = let rest = items element s in if code c == b'{' then rest else none
