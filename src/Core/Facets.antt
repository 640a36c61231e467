-- ===== src/Core/Facets.antt =====
-- crates/evalhub-core/src/fingerprint.rs and run.rs: the facets of a record, the defaults that a run takes
-- from its record's header, and which keys of a facet a fingerprint covers.
pub mod Laws
pub mod Defaults
pub mod Digests
use evalhub.Base.{
  String, Bool, not, Option, none, some, List, [], ◌∷◌, if◌then◌else◌, str_eq, is_some,
}
use evalhub.Base.Lists.{find, contains}
use evalhub.Json.{Value, is_null, Members, end, member, get, get_key, insert}
use evalhub.Schema.{RecordKind, card, eval}

pub data Facet : Type 0 where
  model task harness generation trial grading env : Facet

unfoldable pub all_facets : List Facet
all_facets = model ∷ task ∷ harness ∷ generation ∷ trial ∷ grading ∷ env ∷ []

unfoldable pub for_kind : RecordKind → List Facet
for_kind card = model ∷ task ∷ harness ∷ generation ∷ trial ∷ grading ∷ env ∷ []
for_kind eval = model ∷ task ∷ harness ∷ generation ∷ trial ∷ env ∷ []

unfoldable pub facet_str : Facet → String
facet_str model = "model"
facet_str task = "task"
facet_str harness = "harness"
facet_str generation = "generation"
facet_str trial = "trial"
facet_str grading = "grading"
facet_str env = "env"

unfoldable pub facet_from_str : String → Option Facet
unfolding all_facets
facet_from_str s = find (λ f. str_eq (facet_str f) s) all_facets

-- `header.get(key).filter(|v| !v.is_null())`
abbrev pub unless_null : Option Value → Option Value
unless_null none = none
unless_null (some v) = if is_null v then none else some v

abbrev pub insert_default : Members → String → Option Value → Members
insert_default run key none = run
insert_default run key (some v) = insert run key v

-- One round of the loop over the facets of an Eval.
unfoldable pub take_default : Value → Members → String → Members
take_default header run key =
    if is_some (get run key) then run else insert_default run key (unless_null (get_key header key))

unfoldable pub take_defaults : Value → List Facet → Members → Members
take_defaults header [] run = run
take_defaults header (f ∷ facets) run =
    take_defaults header facets (take_default header run (facet_str f))

unfoldable pub materialise : Value → Value → Value
materialise (Value.object run) header = Value.object (take_defaults header (for_kind eval) run)
materialise run header = run

-- `object.retain(|k, _| !excluded.contains(k))`
unfoldable pub retain : List String → Members → Members
retain excluded end = end
retain excluded (member k v ms) =
    if contains excluded k then retain excluded ms else member k v (retain excluded ms)

abbrev pub object_or_empty : Option Value → Members
object_or_empty (some (Value.object ms)) = ms
object_or_empty _ = end

-- `?` on the hash of one facet, and on the hashes of the others.
abbrev pub add_hash {ℓ} :
    {H : Type ℓ} → Facet → Option H → Option (List (Facet × H)) → Option (List (Facet × H))
add_hash f (some hash) (some rest) = some ((f, hash) ∷ rest)
add_hash f _ _ = none

-- `table` is `exclusions()`, which is read from the generated schema; `digest` is the hash of the
-- canonical form, of the crates `serde_json_canonicalizer` and `sha2`, or `none` where the first
-- fails.
module _ {ℓ} {H : Type ℓ} (table : Facet → List String) (digest : Value → Option H) where
  unfoldable pub fingerprint : Value → Facet → Option H
  fingerprint value f =
      digest (Value.object (retain (table f) (object_or_empty (get_key value (facet_str f)))))

  unfoldable pub facet_hashes : Value → List Facet → Option (List (Facet × H))
  facet_hashes value [] = some []
  facet_hashes value (f ∷ facets) = add_hash f (fingerprint value f) (facet_hashes value facets)

  unfoldable pub fingerprints : RecordKind → Value → Option (List (Facet × H))
  fingerprints kind value = facet_hashes value (for_kind kind)

  unfoldable pub for_run : Value → Option (List (Facet × H))
  for_run run = fingerprints eval run
