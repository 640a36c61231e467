-- ===== src/Core/Attachments.antt =====
-- crates/evalhub-core/src/validate.rs: the `attachments[].path` set of a record or a run, and references
-- into it.
pub mod Laws
use evalhub.Base.{
  ℕ, ◌+◌, String, Bool, true, false, Option, none, some, List, [], ◌∷◌, ◌++◌, if◌then◌else◌, str_eq,
  ◌>>=◌, is_some,
}
use evalhub.Base.Lists.{any, contains}
use evalhub.Base.Text.{◌+++◌, split, strip_prefix}
use evalhub.Base.Decimal.{decimal}
use evalhub.Json.{Value, Members, get, get_key, as_str, as_array}
use evalhub.Schema.{ErrorEntry}
use evalhub.Schema.Codes.{attachment_path_invalid, attachment_ref_unknown}
use evalhub.Core.Report.{push}

-- Why a path is refused.
pub data PathFault : Type 0 where
  empty absolute dot_dot duplicate : PathFault

unfoldable pub path_fault : List String → String → Option PathFault
path_fault seen p =
    if str_eq p ""
    then some empty
    else if is_some (strip_prefix "/" p)
    then some absolute
    else if any (λ seg. str_eq seg "..") (split b'/' p)
    then some dot_dot
    else if contains seen p
    then some duplicate
    else none

abbrev on_fault : ℕ → List String → String → Option PathFault → List String × List ErrorEntry
on_fault i seen p none = (p ∷ seen, [])
on_fault i seen p (some why) =
    (seen, push ("/attachments/" +++ decimal i +++ "/path") attachment_path_invalid)

abbrev on_path : ℕ → List String → Option String → List String × List ErrorEntry
on_path i seen none = (seen, [])
on_path i seen (some p) = on_fault i seen p (path_fault seen p)

-- One round of the loop: the set and the entries after it.
unfoldable pub attachment_step : ℕ → List String → Value → List String × List ErrorEntry
attachment_step i seen a = on_path i seen (get_key a "path" >>= as_str)

unfoldable pub attachment_loop : ℕ → List String → List Value → List String × List ErrorEntry
attachment_loop i seen [] = (seen, [])
attachment_loop i seen (a ∷ rest) =
    let (kept, errors) = attachment_step i seen a in
    let (paths, more) = attachment_loop (i + 1) kept rest in (paths, errors ++ more)

abbrev on_attachments : Option (List Value) → List String × List ErrorEntry
on_attachments none = ([], [])
on_attachments (some attachments) = attachment_loop 0 [] attachments

unfoldable pub attachment_paths : Members → List String × List ErrorEntry
attachment_paths obj = on_attachments (get obj "attachments" >>= as_array)

unfoldable pub ref_known : List String → String → String → List ErrorEntry
ref_known paths pointer p = if contains paths p then [] else push pointer attachment_ref_unknown
