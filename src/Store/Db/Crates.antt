-- ===== src/Store/Db/Crates.antt =====
-- What crates/evalhub-store takes from other crates: hashing and canonical JSON, hexadecimal texts,
-- times, doubles, and the compiled schema documents with the exclusion table read from them.
use evalhub.Base.{ℕ, String, Bool, Option, List}
use evalhub.Json.{Value, Number, Float}
use evalhub.Core.Validate.{Validators}
use evalhub.Core.Facets.{Facet}

pub record Crates : Type 0 where
  pub validators : Validators
  -- the exclusion table of the facets
  pub excluded : Facet → List String
  -- the sha256 of the canonical form of a value, where it has one
  pub digest : Value → Option ℕ
  -- the canonical form of a value, read again as a value
  pub canonical : Value → Option Value
  -- a digest as sixty-four lower-case characters and back, a UUID as text
  pub as_hex : ℕ → String
  pub decode_hex : String → Option ℕ
  -- `hex::decode`, of any length
  pub decode_bytes : String → Option (List ℕ)
  pub uuid_text : ℕ → String
  pub parse_from_rfc3339 : String → Option ℕ
  pub to_rfc3339 : ℕ → String
  pub as_f64 : Number → Float
  -- `==` on JSON values
  pub same_value : Value → Value → Bool
