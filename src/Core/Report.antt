-- ===== src/Core/Report.antt =====
-- crates/evalhub-core/src/validate.rs: the list of failures, its order, and the JSON pointers in it.
-- `out: &mut Vec<ErrorEntry>` is the list of what a check appends.
pub mod Order
pub mod Pointers
use Prim.Native.Nat.{compare, Ordering}
use evalhub.Base.{ℕ, String, Bool, true, false, List, [], ◌∷◌, if◌then◌else◌}
use evalhub.Base.Text.{replace, cmp, then_with, is_gt}
use evalhub.Schema.{ErrorEntry}
use evalhub.Schema.Codes.{ErrorCode, as_u8}

-- `push`, to an empty list
abbrev pub push : String → ErrorCode → List ErrorEntry
push path code = record { path = path; code = code } ∷ []

-- RFC 6901 escaping for one reference token.
unfoldable pub escape_pointer : String → String
escape_pointer key = replace b'/' "~1" (replace b'~' "~0" key)

unfoldable pub entry_cmp : ErrorEntry → ErrorEntry → Ordering
entry_cmp a b = then_with (cmp a.path b.path) (compare (as_u8 a.code) (as_u8 b.code))

-- `sort_by` is stable: an entry goes before the first one that is not smaller.
insert_entry : ErrorEntry → List ErrorEntry → List ErrorEntry
insert_entry e [] = e ∷ []
insert_entry e (x ∷ xs) = if is_gt (entry_cmp e x) then x ∷ insert_entry e xs else e ∷ x ∷ xs

unfoldable pub sort : List ErrorEntry → List ErrorEntry
unfolding insert_entry
sort [] = []
sort (e ∷ es) = insert_entry e (sort es)
