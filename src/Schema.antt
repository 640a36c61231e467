-- ===== src/Schema.antt =====
-- crates/evalhub-schema: the record kinds and their identifiers, and one error entry.
pub mod Codes
use evalhub.Base.{String, List, [], ◌∷◌}
use evalhub.Schema.Codes.{ErrorCode}

abbrev pub card_schema : String
card_schema = "evalhub.card/1.1"

abbrev pub eval_schema : String
eval_schema = "evalhub.eval/2.0"

abbrev pub card_schema_1_0 : String
card_schema_1_0 = "evalhub.card/1.0"

pub data RecordKind : Type 0 where
  card eval : RecordKind

unfoldable pub schema_id : RecordKind → String
schema_id card = card_schema
schema_id eval = eval_schema

unfoldable pub schema_ids : RecordKind → List String
schema_ids card = card_schema ∷ card_schema_1_0 ∷ []
schema_ids eval = eval_schema ∷ []

-- The hint of an entry is prose for the producer and no part of the contract; it is left out.
pub record ErrorEntry : Type 0 where
  pub path : String
  pub code : ErrorCode
