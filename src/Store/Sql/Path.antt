-- ===== src/Store/Sql/Path.antt =====
-- crates/evalhub-store/src/query_sql.rs: the names that may stand in the text of a statement, and
-- the texts that paths and search strings are escaped into.
pub mod Reading
pub mod Quoting
pub mod Literal
use Prim.Native.Char.{Char}
use evalhub.Base.{
  ℕ, suc, code, String, Bool, true, false, Option, none, some, List, [], ◌∷◌, ◌||◌, ◌&&◌, ltb, leb,
  ◌==◌, str_eq, not, if◌then◌else◌,
}
use evalhub.Base.Lists.{find, any}
use evalhub.Base.Text.{◌+++◌, all_chars, replace, strip_prefix}
use evalhub.Json.{Value, object, member, end}
use evalhub.Query.Ir.{ValueType, ArrayColumn}
use evalhub.Query.Ir
use evalhub.Store.Db.{Result, ok, err}
use evalhub.Store.Sql.{◌>>=◌, unsupported, or_unsupported}

abbrev pub generated_columns : List (String × ValueType)
generated_columns =
    ("title", ValueType.string)
    ∷ ("producer_name", ValueType.string)
    ∷ ("model_id", ValueType.string)
    ∷ ("model_provider", ValueType.string)
    ∷ ("model_revision", ValueType.string)
    ∷ ("task_id", ValueType.string)
    ∷ ("task_version", ValueType.string)
    ∷ ("task_split", ValueType.string)
    ∷ ("harness_name", ValueType.string)
    ∷ ("harness_version", ValueType.string)
    ∷ ("gen_temperature", ValueType.number)
    ∷ ("gen_top_p", ValueType.number)
    ∷ ("gen_max_tokens", ValueType.number)
    ∷ ("trial_k", ValueType.number)
    ∷ ("env_git_commit", ValueType.string)
    ∷ ("env_git_dirty", ValueType.boolean)
    ∷ []

abbrev pub facets : List String
facets = "model" ∷ "task" ∷ "harness" ∷ "generation" ∷ "trial" ∷ "grading" ∷ "env" ∷ []

unfoldable pub generated : String → Result (String × ValueType)
generated name =
    or_unsupported (find (λ (c : String × ValueType). str_eq c.0 name) generated_columns)

-- `char::is_control`
abbrev pub is_control : ℕ → Bool
is_control c = ltb c 32 || (leb 127 c && leb c 159)

-- Within the array a quote and a backslash take a backslash, within the text a quote is doubled.
unfoldable pub escape_char : Char → String
escape_char c =
    if code c == b'"' || code c == b'\\'
    then "\\" +++ String.◌∷◌ c ""
    else if code c == b'\''
    then "''"
    else String.◌∷◌ c ""

unfoldable pub escape_segment : String → String
unfolding escape_char
escape_segment String.[] = ""
escape_segment (String.◌∷◌ c s) = escape_char c +++ escape_segment s

abbrev pub is_empty_text : String → Bool
is_empty_text String.[] = true
is_empty_text (String.◌∷◌ c s) = false

abbrev pub is_refused : String → Bool
is_refused s = is_empty_text s || not (all_chars (λ c. not (is_control c)) s)

-- The loop over the segments, from the segment with the number `i`.
unfoldable pub array_items : ℕ → List String → Result String
unfolding escape_segment
array_items i [] = ok ""
array_items i (s ∷ path) =
    let rest = array_items (suc i) path in
    if is_refused s
    then unsupported
    else rest >>= λ more.
        ok ((if ltb 0 i then "," else "") +++ "\"" +++ escape_segment s +++ "\"" +++ more)

unfoldable pub array_literal : List String → Result String
unfolding array_items
array_literal [] = unsupported
array_literal (s ∷ path) = array_items 0 (s ∷ path) >>= λ items. ok ("'{" +++ items +++ "}'")

unfoldable pub cast : ValueType → String
cast ValueType.number = "evalhub_num"
cast ValueType.string = "evalhub_str"
cast ValueType.boolean = "evalhub_bool"

unfoldable pub ext_expression : List String → ValueType → Result String
unfolding cast array_literal
ext_expression path ty = array_literal path >>= λ l. ok (cast ty +++ "(v.body #> " +++ l +++ ")")

-- `s.replacen(p, r, 1)`
unfoldable pub replace_first : String → String → String → String
replace_first p r String.[] = ""
replace_first p r (String.◌∷◌ x s) =
    let later = String.◌∷◌ x (replace_first p r s) in
    elim (strip_prefix p (String.◌∷◌ x s)) [ some rest ↦ r +++ rest | none ↦ later ]

unfoldable pub ext_expression_unqualified : List String → ValueType → Result String
unfolding ext_expression replace_first
ext_expression_unqualified path ty =
    ext_expression path ty >>= λ e. ok (replace_first "v.body" "body" e)

unfoldable pub array_column : ArrayColumn → String × ValueType
array_column ArrayColumn.result_metric = ("x.metric", ValueType.string)
array_column ArrayColumn.result_aggregation = ("x.aggregation", ValueType.string)
array_column ArrayColumn.result_value = ("x.value", ValueType.number)
array_column ArrayColumn.result_n = ("x.n::double precision", ValueType.number)
array_column ArrayColumn.relation_type = ("x.type", ValueType.string)
array_column ArrayColumn.relation_to = (
  "COALESCE(x.to_external, (SELECT r2.ns || '/' || r2.name || '@' || v2.seq FROM versions v2 JOIN records r2 ON r2.id = v2.record_id WHERE v2.version_id = x.to_version_id))",
  ValueType.string,
)
array_column ArrayColumn.attachment_path = ("x.path", ValueType.string)
array_column ArrayColumn.attachment_sha256 = ("encode(x.sha256, 'hex')", ValueType.string)

-- `{"a": {"b": v}}` for the path a, b. The loop wraps the value in the last key first.
unfoldable pub nest : List String → Value → Value
nest [] value = value
nest (key ∷ path) value = object (member key (nest path value) end)

-- `$."a"."b"` for the path a, b
unfoldable pub jsonpath_segments : List String → Result String
jsonpath_segments [] = ok ""
jsonpath_segments (s ∷ path) =
    let rest = jsonpath_segments path in
    if not (all_chars (λ c. not (is_control c)) s)
    then unsupported
    else rest >>= λ more. ok (".\"" +++ replace b'"' "\\\"" s +++ "\"" +++ more)

unfoldable pub jsonpath : List String → Result String
unfolding jsonpath_segments
jsonpath path = jsonpath_segments path >>= λ s. ok ("$" +++ s)

-- what `LIKE … ESCAPE '\'` takes literally
unfoldable pub escape_like : String → String
escape_like String.[] = ""
escape_like (String.◌∷◌ c s) =
    let rest = String.◌∷◌ c (escape_like s) in
    if code c == b'%' || code c == b'_' || code c == b'\\' then "\\" +++ rest else rest
