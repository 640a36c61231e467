-- ===== src/Store/Sql/Filters.antt =====
-- crates/evalhub-store/src/query_sql.rs: a filter as a condition of a statement.
pub mod Binds
use evalhub.Base.{
  ℕ, String, Bool, true, false, Option, none, some, List, [], ◌∷◌, ◌++◌, if◌then◌else◌, str_eq, not,
}
use evalhub.Base.Lists.{any}
use evalhub.Base.Text.{◌+++◌}
use evalhub.Json.{Value, Float, as_str, as_array}
use evalhub.Json
use evalhub.Query.Ir.{ValueType, ArrayTable, ArrayColumn, Column, Op, Cmp, Filter, Filters, table}
use evalhub.Store.Db.{Result, ok, err}
use evalhub.Store.Db.Crates.{Crates}
use evalhub.Store.Sql.{
  Bound, Sql, push, push_bind, nothing, ◌>>=◌, ◌<>◌, unsupported, or_unsupported, traverse,
}
use evalhub.Store.Sql.Path.{
  facets, generated, ext_expression, array_column, nest, jsonpath, escape_like,
}

-- `Value::as_f64` is none but on a number.
abbrev pub as_f64 : Crates → Value → Result Float
as_f64 c (Value.number n) = ok (c.as_f64 n)
as_f64 c _ = unsupported

abbrev pub as_string : Value → Result String
as_string v = or_unsupported (as_str v)

abbrev pub as_bool : Value → Result Bool
as_bool (Value.bool b) = ok b
as_bool _ = unsupported

unfoldable pub scalar : Crates → ValueType → Value → Result Bound
scalar c ValueType.number v = as_f64 c v >>= λ x. ok (Bound.number x)
scalar c ValueType.string v = as_string v >>= λ s. ok (Bound.text s)
scalar c ValueType.boolean v = as_bool v >>= λ b. ok (Bound.boolean b)

unfoldable pub push_scalar : Crates → ValueType → Value → Result Sql
unfolding scalar push_bind
push_scalar c ty v = scalar c ty v >>= push_bind

unfoldable pub bound_items : Crates → ValueType → List Value → Result Bound
bound_items c ValueType.number vs = traverse (as_f64 c) vs >>= λ xs. ok (Bound.numbers xs)
bound_items c ValueType.string vs = traverse as_string vs >>= λ xs. ok (Bound.texts xs)
bound_items c ValueType.boolean vs = traverse as_bool vs >>= λ xs. ok (Bound.booleans xs)

unfoldable pub push_array : Crates → ValueType → Value → Result Sql
unfolding bound_items push_bind
push_array c ty v = or_unsupported (as_array v) >>= bound_items c ty >>= push_bind

abbrev pub compared : Crates → String → String → ValueType → Value → Result Sql
compared c expr symbol ty v = push (expr +++ " " +++ symbol +++ " ") <> push_scalar c ty v

abbrev pub like : (String → String) → String → ValueType → Value → Result Sql
like pattern expr ValueType.string v = as_string v >>= λ text.
    push (expr +++ " LIKE ") <> push_bind (Bound.text (pattern text)) <> push " ESCAPE '\\'"
like pattern expr _ v = unsupported

unfoldable pub push_operator : Crates → String → Op → ValueType → Value → Result Sql
unfolding push push_bind push_scalar push_array
push_operator c expr Op.eq ty v = compared c expr "=" ty v
push_operator c expr Op.ne ty v = compared c expr "<>" ty v
push_operator c expr Op.gt ty v = compared c expr ">" ty v
push_operator c expr Op.gte ty v = compared c expr ">=" ty v
push_operator c expr Op.lt ty v = compared c expr "<" ty v
push_operator c expr Op.lte ty v = compared c expr "<=" ty v
push_operator c expr Op.in_list ty v = push (expr +++ " = ANY(") <> push_array c ty v <> push ")"
push_operator c expr Op.prefix ty v = like (λ s. escape_like s +++ "%") expr ty v
push_operator c expr Op.contains ty v = like (λ s. "%" +++ escape_like s +++ "%") expr ty v

-- Whether a fingerprint condition is negated.
unfoldable pub is_negated : Op → Result Bool
is_negated Op.eq = ok false
is_negated Op.ne = ok true
is_negated _ = unsupported

abbrev pub fingerprint_rows : String
fingerprint_rows =
    "EXISTS (SELECT 1 FROM fingerprints f WHERE f.version_id = v.version_id AND f.facet = "

unfoldable pub push_fingerprint : Crates → String → Op → Value → Result Sql
unfolding is_negated push push_bind
push_fingerprint c facet op v =
    let matched = λ (negated : Bool) (bytes : List ℕ).
      (if negated then push "NOT " else nothing)
      <> push fingerprint_rows
      <> push_bind (Bound.text facet)
      <> push " AND f.fingerprint = "
      <> push_bind (Bound.bytes bytes)
      <> push ")" in
    if not (any (str_eq facet) facets) then unsupported else do
      negated ← is_negated op
      hex ← as_string v
      bytes ← or_unsupported (c.decode_bytes hex)
      matched negated bytes

unfoldable pub push_body : List String → Op → Value → Result Sql
unfolding push push_bind
push_body path Op.eq v = push "v.body @> " <> push_bind (Bound.json (nest path v))
push_body path _ v = unsupported

abbrev pub is_table : ArrayTable → ArrayTable → Bool
is_table ArrayTable.results ArrayTable.results = true
is_table ArrayTable.relations ArrayTable.relations = true
is_table ArrayTable.attachments ArrayTable.attachments = true
is_table _ _ = false

abbrev at_table : Crates → ArrayColumn → Option ArrayTable → Op → Value → Result Sql
at_table c col none op v = unsupported
at_table c col (some t) op v =
    if not (is_table (table col) t)
    then unsupported
    else push_operator c (array_column col).0 op (array_column col).1 v

-- `alias` is the side table of an `any` condition.
unfoldable pub push_cmp : Crates → Option ArrayTable → Cmp → Result Sql
unfolding push_fingerprint push_body push_operator
push_cmp c alias cmp = elim (cmp.column) [
  | Column.fingerprint facet ↦ push_fingerprint c facet cmp.op cmp.value
  | Column.body path ↦ push_body path cmp.op cmp.value
  | Column.array col ↦ at_table c col alias cmp.op cmp.value
  | Column.generated name ↦
      generated name >>= λ column. push_operator c ("v." +++ column.0) cmp.op column.1 cmp.value
  | Column.ext path ty ↦ ext_expression path ty >>= λ expr. push_operator c expr cmp.op ty cmp.value
  | Column.run column ↦ unsupported
]

unfoldable pub push_cmps : Crates → ArrayTable → List Cmp → Result Sql
unfolding push push_cmp
push_cmps c t [] = nothing
push_cmps c t (cmp ∷ cmps) = push " AND " <> push_cmp c (some t) cmp <> push_cmps c t cmps

unfoldable pub rows_of : ArrayTable → String
rows_of ArrayTable.results = "EXISTS (SELECT 1 FROM results x WHERE x.version_id = v.version_id"
rows_of ArrayTable.relations =
    "EXISTS (SELECT 1 FROM relations x WHERE x.from_version_id = v.version_id"
rows_of ArrayTable.attachments =
    "EXISTS (SELECT 1 FROM attachment_refs x WHERE x.version_id = v.version_id"

-- Of the relations, those whose target the caller may see.
unfoldable pub push_visible : ArrayTable → List String → Result Sql
unfolding push push_bind
push_visible ArrayTable.relations namespaces =
    push
      " AND (x.to_version_id IS NULL OR EXISTS (SELECT 1 FROM versions tv JOIN records tr ON tr.id = tv.record_id WHERE tv.version_id = x.to_version_id AND (tr.visibility = 'public' OR tr.ns = ANY("
    <> push_bind (Bound.texts namespaces)
    <> push "))))"
push_visible _ namespaces = nothing

unfoldable pub push_any : Crates → List String → ArrayTable → List Cmp → Result Sql
unfolding push rows_of push_visible push_cmps
push_any c namespaces t cmps =
    push (rows_of t) <> push_visible t namespaces <> push_cmps c t cmps <> push ")"

unfoldable pub push_exists : Column → Result Sql
unfolding push push_bind
push_exists (Column.generated name) =
    generated name >>= λ column. push ("v." +++ column.0 +++ " IS NOT NULL")
push_exists (Column.ext path ty) = ext_expression path ty >>= λ expr. push (expr +++ " IS NOT NULL")
push_exists (Column.body path) =
    push "v.body @? " <> (jsonpath path >>= λ p. push_bind (Bound.text p)) <> push "::jsonpath"
push_exists (Column.fingerprint facet) =
    if not (any (str_eq facet) facets)
    then unsupported
    else push fingerprint_rows <> push_bind (Bound.text facet) <> push ")"
push_exists (Column.array column) = unsupported
push_exists (Column.run column) = unsupported

unfoldable mutual
  unfolding push push_cmp push_exists push_any

  pub push_filter : Crates → List String → Filter → Result Sql
  push_filter c namespaces (Filter.and fs) = push_junction c namespaces "AND" "TRUE" fs
  push_filter c namespaces (Filter.or fs) = push_junction c namespaces "OR" "FALSE" fs
  push_filter c namespaces (Filter.not f) = push "NOT (" <> push_filter c namespaces f <> push ")"
  push_filter c namespaces (Filter.cmp cmp) = push_cmp c none cmp
  push_filter c namespaces (Filter.exists column) = push_exists column
  push_filter c namespaces (Filter.any t cmps) = push_any c namespaces t cmps

  pub push_junction : Crates → List String → String → String → Filters → Result Sql
  push_junction c namespaces joiner empty Filters.nil = push empty
  push_junction c namespaces joiner empty (Filters.cons f fs) =
      push "(" <> push_filter c namespaces f <> push_more c namespaces joiner fs <> push ")"

  -- the children behind the first
  pub push_more : Crates → List String → String → Filters → Result Sql
  push_more c namespaces joiner Filters.nil = nothing
  push_more c namespaces joiner (Filters.cons f fs) =
      push (" " +++ joiner +++ " ")
      <> push_filter c namespaces f
      <> push_more c namespaces joiner fs
