-- ===== src/Core/Ids.antt =====
-- crates/evalhub-core/src/validate.rs: the ids `{ns}/{name}`, run ids and relation targets.
pub mod Laws
use Prim.Native.String.{String, [], ◌∷◌, len}
use Prim.Native.Char.{code}
use evalhub.Base.{
  ℕ, ◌^◌, Bool, true, false, not, ◌&&◌, ◌||◌, Option, none, some, ltb, leb, ◌==◌, if◌then◌else◌,
  str_eq, ◌>>=◌,
}
use evalhub.Base.Text.{has_char, all_chars, split_once, rsplit_once, strip_prefix}
use evalhub.Base.Decimal.{is_digit, digits_value}

abbrev pub max_run_id_bytes : ℕ
max_run_id_bytes = 200

pub data RelationTarget : Type 0 where
  version : (ns name : String) (seq : ℕ) → RelationTarget
  external : String → RelationTarget
  hf : String → RelationTarget

-- `c.is_ascii_lowercase() || c.is_ascii_digit()`
unfoldable pub slug_start : ℕ → Bool
slug_start c = (leb b'a' c && leb c b'z') || is_digit c

unfoldable pub slug_char : ℕ → Bool
unfolding slug_start
slug_char c = slug_start c || c == b'.' || c == b'_' || c == b'-'

unfoldable pub is_slug : String → Bool
is_slug [] = false
is_slug (c ∷ s) = slug_start (code c) && all_chars slug_char s

abbrev both_slugs : Option (String × String) → Bool
both_slugs none = false
both_slugs (some (ns, name)) = is_slug ns && is_slug name

unfoldable pub is_valid_id : String → Bool
is_valid_id s = both_slugs (split_once b'/' s)

unfoldable pub is_valid_run_id : String → Bool
is_valid_run_id s = not (str_eq s "") && not (has_char b'/' s) && leb (len s) max_run_id_bytes

-- `seq.parse::<u32>().ok()` of a text that is all ASCII digits and not empty
abbrev parse_u32 : String → Option ℕ
parse_u32 s = let n = digits_value 0 s in if ltb n (2 ^ 32) then some n else none

-- What follows the splits: the slugs, the digits, the range.
unfoldable pub hub_target : String → String → String → Option RelationTarget
hub_target ns name seq =
    if not (is_slug ns) || not (is_slug name)
    then none
    else if str_eq seq "" || not (all_chars is_digit seq)
    then none
    else parse_u32 seq >>= λ n. if n == 0 then none else some (version ns name n)

unfoldable pub parse_version : String → Option RelationTarget
parse_version s = rsplit_once b'@' s >>= λ halves.
    split_once b'/' halves.0 >>= λ id. hub_target id.0 id.1 halves.1

abbrev non_empty : (String → RelationTarget) → String → Option RelationTarget
non_empty kind rest = if str_eq rest "" then none else some (kind rest)

abbrev after_hf : String → Option String → Option RelationTarget
after_hf s (some rest) = non_empty hf rest
after_hf s none = parse_version s

abbrev after_external : String → Option String → Option RelationTarget
after_external s (some rest) = non_empty external rest
after_external s none = after_hf s (strip_prefix "hf:" s)

unfoldable pub parse_relation_target : String → Option RelationTarget
parse_relation_target s = after_external s (strip_prefix "external:" s)
