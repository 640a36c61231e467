-- ===== src/Core/Runs.antt =====
-- crates/evalhub-core/src/run.rs: the hash of one run, and of a set of runs.
pub mod Order
pub mod Laws
use Prim.Native.Nat.{Ordering}
use evalhub.Base.{String, Option, List, [], ◌∷◌, map, if◌then◌else◌}
use evalhub.Base.Text.{cmp, then_with, is_gt}
use evalhub.Json.{Value, Members, end, Items, nil, cons, insert}

abbrev pub Pair : Type 0
Pair = String × String

-- The order of pairs of texts.
unfoldable pub pair_cmp : Pair → Pair → Ordering
pair_cmp (a, b) (c, d) = then_with (cmp a c) (cmp b d)

unfoldable pub insert_pair : Pair → List Pair → List Pair
insert_pair p [] = p ∷ []
insert_pair p (q ∷ ps) = if is_gt (pair_cmp p q) then q ∷ insert_pair p ps else p ∷ q ∷ ps

-- `pairs.sort()`
unfoldable pub sort_pairs : List Pair → List Pair
sort_pairs [] = []
sort_pairs (p ∷ ps) = insert_pair p (sort_pairs ps)

-- Each pair as an array of two texts.
abbrev pub pair_items : List Pair → Items
pair_items [] = nil
pair_items ((id, hex) ∷ ps) =
    cons (Value.array (cons (Value.string id) (cons (Value.string hex) nil))) (pair_items ps)

abbrev pub keys_of : Value → Members
keys_of (Value.object ms) = ms
keys_of _ = end

-- `digest` is the hash of the canonical form, or `none` where that fails; `as_hex` is of the `hex`
-- crate.
module _ {ℓ} {H : Type ℓ} (digest : Value → Option H) (as_hex : H → String) where
  unfoldable pub run_content_hash : String → Value → Option H
  run_content_hash run_id run =
      digest (Value.object (insert (keys_of run) "run_id" (Value.string run_id)))

  abbrev pub hex_pair : String × H → Pair
  hex_pair (id, hash) = (id, as_hex hash)

  unfoldable pub runs_hash : List (String × H) → Option H
  runs_hash runs = digest (Value.array (pair_items (sort_pairs (map hex_pair runs))))
