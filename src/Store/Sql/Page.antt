-- ===== src/Store/Sql/Page.antt =====
-- crates/evalhub-store/src/query_sql.rs: the whole statement of a query, and the page that is made
-- of the rows that answer it. The rows themselves are the database's.
pub mod Text
pub mod Keys
pub mod Cuts
pub mod Bounds
pub mod Limit
use evalhub.Base.{
  ℕ, zero, suc, ◌+◌, String, Bool, true, false, Option, none, some, List, [], ◌∷◌, ◌++◌, ltb,
  if◌then◌else◌,
}
use evalhub.Base.Decimal.{decimal}
use evalhub.Base.Lists.{length}
use evalhub.Base.Text.{◌+++◌}
use evalhub.Json.{Value, Float}
use evalhub.Json
use evalhub.Query.Ir.{Query, RecordType, VersionSelector, Dir, Cursor, Filter}
use evalhub.Store.Db.{Result, ok, err, StoreError}
use evalhub.Store.Db.Crates.{Crates}
use evalhub.Store.Records.{Visibility, parse_visibility}
use evalhub.Store.Sql.{Bound, Sql, push, push_bind, nothing, ◌>>=◌, ◌<>◌, traverse}
use evalhub.Store.Sql.Filters.{push_filter}
use evalhub.Store.Sql.Sorts.{KeyType, SortPlan, plan_sorts, tiebreak, push_keyset}

unfoldable pub record_type : RecordType → String
record_type RecordType.card = "card"
record_type RecordType.eval = "eval"

unfoldable pub order : Dir → String
order Dir.asc = "ASC"
order Dir.desc = "DESC"

unfoldable pub push_selected : ℕ → List SortPlan → Result Sql
unfolding push
push_selected i [] = nothing
push_selected i (p ∷ ps) =
    push (", " +++ p.expr +++ " AS k" +++ decimal i) <> push_selected (suc i) ps

-- The best value of a metric, in the sort's own direction.
abbrev pub push_join : ℕ → Dir → Option String → Result Sql
push_join i dir none = nothing
push_join i dir (some m) =
    push
      " LEFT JOIN LATERAL (SELECT value FROM results WHERE version_id = v.version_id AND metric = "
    <> push_bind (Bound.text m)
    <> push (" ORDER BY value " +++ order dir +++ " LIMIT 1) s" +++ decimal i +++ " ON true")

unfoldable pub push_joins : ℕ → List SortPlan → Result Sql
unfolding push push_bind order
push_joins i [] = nothing
push_joins i (p ∷ ps) = push_join i p.dir p.metric <> push_joins (suc i) ps

unfoldable pub push_version : VersionSelector → Result Sql
unfolding push
push_version VersionSelector.latest =
    push
      " AND v.seq = (SELECT max(seq) FROM versions v2 WHERE v2.record_id = v.record_id AND v2.tombstoned_at IS NULL)"
push_version VersionSelector.all = nothing

unfoldable pub push_condition : Crates → List String → Option Filter → Result Sql
unfolding push push_filter
push_condition c namespaces none = nothing
push_condition c namespaces (some f) = push " AND " <> push_filter c namespaces f

unfoldable pub push_cursor : Crates → List SortPlan → Option Cursor → Result Sql
unfolding push_keyset
push_cursor c sorts none = nothing
push_cursor c sorts (some k) = push_keyset c sorts k

unfoldable pub push_orders : List SortPlan → Result Sql
unfolding push order
push_orders [] = nothing
push_orders (p ∷ ps) = push (p.expr +++ " " +++ order p.dir +++ ", ") <> push_orders ps

abbrev pub newest_first : List SortPlan → Result Sql
newest_first [] = push "v.created_at DESC, "
newest_first (p ∷ ps) = nothing

abbrev pub at_least_one : ℕ → ℕ
at_least_one zero = 1
at_least_one (suc n) = suc n

unfoldable pub build_planned : Crates → Query → List String → List SortPlan → Result Sql
unfolding push push_bind push_selected push_joins record_type push_version push_condition
    push_cursor push_orders order tiebreak
build_planned c q namespaces sorts =
    push
      "SELECT r.id AS record_id, r.ns, r.name, r.visibility, v.version_id, v.seq, v.label, v.content_hash, v.created_at, v.changed, v.badges, v.body, v.title"
    <> push_selected 0 sorts
    <> push " FROM records r JOIN versions v ON v.record_id = r.id"
    <> push_joins 0 sorts
    <> push " WHERE r.type = "
    <> push_bind (Bound.text (record_type q.record_type))
    <> push " AND (r.visibility = 'public' OR r.ns = ANY("
    <> push_bind (Bound.texts namespaces)
    <> push ")) AND v.tombstoned_at IS NULL"
    <> push_version q.version
    <> push_condition c namespaces q.filter
    <> push_cursor c sorts q.cursor
    <> push " ORDER BY "
    <> push_orders sorts
    <> newest_first sorts
    <> push ("v.version_id " +++ order (tiebreak sorts))
    <> push " LIMIT "
    <> push_bind (Bound.integer (at_least_one q.limit + 1))

unfoldable pub build : Crates → Query → List String → Result Sql
unfolding plan_sorts build_planned
build c q namespaces = plan_sorts q.sort >>= build_planned c q namespaces

-- `sql` is `QueryBuilder::sql`, the text with a placeholder for each value.
unfoldable pub render : Crates → (sql : Sql → String) → Query → List String → Result String
unfolding build
render c sql q namespaces = build c q namespaces >>= λ s. ok (sql s)

-- A `k{i}` column of a row, which may be NULL.
pub data Cell : Type 0 where
  null : Cell
  number : Float → Cell
  text : String → Cell
  boolean : Bool → Cell
  timestamp : ℕ → Cell

pub record QueryRow : Type 0 where
  pub record_id : ℕ
  pub version_id : ℕ
  pub ns : String
  pub name : String
  pub seq : ℕ
  pub label : Option String
  pub content_hash : ℕ
  pub created_at : ℕ
  pub changed : List String
  pub badges : List String
  pub visibility : String
  pub body : Option Value
  pub title : Option String
  pub cells : List Cell

pub record QueryHit : Type 0 where
  pub record_id : ℕ
  pub version_id : ℕ
  pub ns : String
  pub name : String
  pub seq : ℕ
  pub label : Option String
  pub content_hash : ℕ
  pub created_at : ℕ
  pub changed : List String
  pub badges : List String
  pub visibility : Visibility
  pub body : Option Value
  pub title : Option String

unfoldable pub hit : QueryRow → QueryHit
hit row = record {
  record_id = row.record_id;
  version_id = row.version_id;
  ns = row.ns;
  name = row.name;
  seq = row.seq;
  label = row.label;
  content_hash = row.content_hash;
  created_at = row.created_at;
  changed = row.changed;
  badges = row.badges;
  visibility = parse_visibility row.visibility;
  body = row.body;
  title = row.title;
}

-- A column of another type does not read.
unfoldable pub read_key : Crates → KeyType → Cell → Result Value
read_key c ty null = ok Value.null
read_key c KeyType.number (number x) = ok (Value.number (Json.float x))
read_key c KeyType.text (text s) = ok (Value.string s)
read_key c KeyType.boolean (boolean b) = ok (Value.bool b)
read_key c KeyType.timestamp (timestamp t) = ok (Value.string (c.to_rfc3339 t))
read_key c _ _ = err StoreError.query

unfoldable pub read_keys : Crates → List SortPlan → List Cell → Result (List Value)
unfolding read_key
read_keys c [] cells = ok []
read_keys c (p ∷ ps) [] = err StoreError.query
read_keys c (p ∷ ps) (cell ∷ cells) =
    read_key c p.ty cell >>= λ v. read_keys c ps cells >>= λ vs. ok (v ∷ vs)

unfoldable pub read_row : Crates → List SortPlan → QueryRow → Result (QueryHit × List Value)
unfolding hit read_keys
read_row c sorts row = read_keys c sorts row.cells >>= λ keys. ok (hit row, keys)

abbrev pub take {ℓ} : {A : Type ℓ} → ℕ → List A → List A
take zero rows = []
take (suc n) [] = []
take (suc n) (row ∷ rows) = row ∷ take n rows

unfoldable pub cursor_of : QueryHit × List Value → Cursor
cursor_of (h, keys) = record { keys = keys; version_id = h.version_id }

unfoldable pub last_cursor : List (QueryHit × List Value) → Option Cursor
unfolding cursor_of
last_cursor [] = none
last_cursor (x ∷ []) = some (cursor_of x)
last_cursor (x ∷ y ∷ xs) = last_cursor (y ∷ xs)

abbrev pub hits_of : List (QueryHit × List Value) → List QueryHit
hits_of [] = []
hits_of (x ∷ xs) = x.0 ∷ hits_of xs

-- The page with room for `limit` hits, and the cursor behind it where a row is left over.
unfoldable pub page :
    Crates → List SortPlan → ℕ → List QueryRow → Result (List QueryHit × Option Cursor)
unfolding read_row last_cursor
page c sorts limit rows = traverse (read_row c sorts) (take limit rows) >>= λ read.
    ok (hits_of read, if ltb limit (length rows) then last_cursor read else none)

-- `fetch_all` is the database.
unfoldable pub run :
    Crates
    → (fetch_all : Sql → Result (List QueryRow)) → Query
    → List String
    → Result (List QueryHit × Option Cursor)
run c fetch_all q namespaces = plan_sorts q.sort >>= λ sorts.
    build c q namespaces >>= fetch_all >>= page c sorts (at_least_one q.limit)
