-- ===== src/Store/Tests.antt =====
-- The theorems of the store's part at concrete inputs.
pub mod Tables
pub mod RunTests
pub mod RecordTests
pub mod RelationTests
pub mod SqlTests
pub mod PageTests
use evalhub.Base.{refl, inl, [], ◌∷◌}
use evalhub.Json.{Value, object, string, end, member, get}
use evalhub.Query.Ir.{number}
use evalhub.Store.ExtPaths.{ExtPath, walk, walk_at, walk_object, walk_properties, scalar_type}
use evalhub.Store.ExtPaths.Laws.{IsLeaf}
use evalhub.Store.ExtPaths.Complete.{walk_iff}

-- A schema with a number below an object.
abbrev timing : Value
timing = object (
    member "type" (string "object") (
      member "properties" (object (member "ms" (object (member "type" (string "number") end)) end))
        end))

abbrev schema : Value
schema = object (member "properties" (object (member "timing" timing end)) end)

abbrev path : ExtPath
path = record { path = "ext" ∷ "acme/ci" ∷ "timing" ∷ "ms" ∷ []; ty = number }

walk_iff_example : IsLeaf schema ("ext" ∷ "acme/ci" ∷ []) path
unfolding walk walk_at walk_object walk_properties scalar_type get
walk_iff_example = (walk_iff schema ("ext" ∷ "acme/ci" ∷ []) path).0 (inl refl)
