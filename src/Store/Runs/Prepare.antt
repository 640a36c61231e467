-- ===== src/Store/Runs/Prepare.antt =====
-- crates/evalhub-store/src/runs.rs: what is taken out of the body of a run that is written.
use Prim.Native.String.{len}
use evalhub.Base.{
  ℕ, ◌+◌, String, Option, none, some, List, [], ◌∷◌, ◌++◌, ◌==◌, if◌then◌else◌, map, ◌>>=◌,
}
use evalhub.Base.Lists.{filter_map}
use evalhub.Base.Text.{◌+++◌}
use evalhub.Base.Decimal.{decimal}
use evalhub.Json.{Value, Float, Members, get_key, as_str, as_array, as_object, entries, insert}
use evalhub.Schema.{ErrorEntry}
use evalhub.Schema.Codes.{schema}
use evalhub.Core.Report.{push}
use evalhub.Core.Runs.{run_content_hash}
use evalhub.Core.Facets.{Facet, facet_str, for_run}
use evalhub.Store.Db.Crates.{Crates}

-- A run after the checks: what the write needs.
pub record Checked : Type 0 where
  pub run_id : String
  pub body : Value
  pub content_hash : ℕ
  pub status : String
  pub error_kind : Option String
  pub started_at : Option ℕ
  pub ended_at : Option ℕ
  pub metrics : List (String × Float)
  pub attachments : List (String × ℕ)
  pub fingerprints : List (String × ℕ)

-- `if let Some(obj) = body.as_object_mut() { obj.insert("run_id", …) }`
unfoldable pub with_run_id : String → Value → Value
with_run_id run_id (Value.object ms) = Value.object (insert ms "run_id" (Value.string run_id))
with_run_id run_id body = body

abbrev or_empty : Option String → String
or_empty none = ""
or_empty (some s) = s

abbrev metric_of : (Value → Option Float) → String × Value → Option (String × Float)
metric_of f (k, v) = f v >>= λ x. some (k, x)

abbrev metrics_of : (Value → Option Float) → Option Members → List (String × Float)
metrics_of f none = []
metrics_of f (some ms) = filter_map (metric_of f) (entries ms)

abbrev by_name : Facet × ℕ → String × ℕ
by_name (f, fp) = (facet_str f, fp)

module _ (c : Crates) where
  -- `Value::as_f64`
  abbrev pub as_f64 : Value → Option Float
  as_f64 (Value.number n) = some (c.as_f64 n)
  as_f64 _ = none

  abbrev pub time : Value → String → Option ℕ
  time body key = get_key body key >>= as_str >>= c.parse_from_rfc3339

  abbrev columns : String → List (String × ℕ) → ℕ → Value → List (Facet × ℕ) → Checked
  columns run_id attachments content_hash body fingerprints = record {
    run_id = run_id;
    body = body;
    content_hash = content_hash;
    status = or_empty (get_key body "status" >>= as_str);
    error_kind = get_key body "error" >>= (λ e. get_key e "kind") >>= as_str;
    started_at = time body "started_at";
    ended_at = time body "ended_at";
    metrics = metrics_of as_f64 (get_key body "metrics" >>= as_object);
    attachments = attachments;
    fingerprints = map by_name fingerprints;
  }

  unfoldable pub prepare : String → Value → List (String × ℕ) → Option Checked
  prepare run_id body attachments =
      run_content_hash c.digest c.as_hex run_id (with_run_id run_id body) >>= λ content_hash.
      c.canonical (with_run_id run_id body) >>= λ stored.
      for_run c.excluded c.digest stored >>= λ fingerprints.
      some (columns run_id attachments content_hash stored fingerprints)

  -- The digest of sixty-four hexadecimal characters.
  abbrev pub sha_of : String → Option ℕ
  sha_of hex = if len hex == 64 then c.decode_hex hex else none

  abbrev add_attachment :
      ℕ
      → String
      → Option ℕ
      → List (String × ℕ) × List ErrorEntry
      → List (String × ℕ) × List ErrorEntry
  add_attachment i path (some sha) (out, errors) = ((path, sha) ∷ out, errors)
  add_attachment i path none (out, errors) =
      (out, push ("/attachments/" +++ (decimal i +++ "/sha256")) schema ++ errors)

  abbrev attachment_at :
      ℕ
      → Option String
      → Option String
      → List (String × ℕ) × List ErrorEntry
      → List (String × ℕ) × List ErrorEntry
  attachment_at i (some path) (some hex) rest = add_attachment i path (sha_of hex) rest
  attachment_at i _ _ rest = rest

  -- The loop over `list.iter().enumerate()`: what it collects, and the entries that it pushes.
  unfoldable pub decode_from : ℕ → List Value → List (String × ℕ) × List ErrorEntry
  decode_from i [] = ([], [])
  decode_from i (a ∷ rest) =
      attachment_at i (get_key a "path" >>= as_str) (get_key a "sha256" >>= as_str)
        (decode_from (i + 1) rest)

  abbrev decode_list : Option (List Value) → List (String × ℕ) × List ErrorEntry
  decode_list none = ([], [])
  decode_list (some items) = decode_from 0 items

  unfoldable pub decode_attachments : Value → List (String × ℕ) × List ErrorEntry
  decode_attachments body = decode_list (get_key body "attachments" >>= as_array)
