-- ===== src/Store/Sql/Sorts.antt =====
-- crates/evalhub-store/src/query_sql.rs: sort keys, and where the previous page stopped.
pub mod Keyset
pub mod Pushed
pub mod Meaning
pub mod Order
pub mod Binds
use evalhub.Base.{
  ℕ, suc, String, Bool, true, false, ◌&&◌, ◌||◌, Option, none, some, List, [], ◌∷◌, ◌++◌, ◌==◌, not,
  if◌then◌else◌,
}
use evalhub.Base.Decimal.{decimal}
use evalhub.Base.Lists.{length}
use evalhub.Base.Text.{◌+++◌}
use evalhub.Json.{Value}
use evalhub.Query.Ir.{ValueType, Column, SortKey, Sort, Dir, Cursor}
use evalhub.Query.Ir
use evalhub.Store.Db.{Result, ok, err}
use evalhub.Store.Db.Crates.{Crates}
use evalhub.Store.Sql.{
  Bound, Sql, push, push_bind, nothing, ◌>>=◌, ◌<>◌, unsupported, or_unsupported,
}
use evalhub.Store.Sql.Path.{generated, ext_expression}
use evalhub.Store.Sql.Filters.{as_f64, as_string, as_bool}

pub data KeyType : Type 0 where
  number text boolean timestamp : KeyType

unfoldable pub key_type : ValueType → KeyType
key_type ValueType.number = number
key_type ValueType.string = text
key_type ValueType.boolean = boolean

pub record SortPlan : Type 0 where
  pub expr : String
  pub dir : Dir
  pub ty : KeyType
  pub metric : Option String

-- The plan of the sort key with the number `i`.
unfoldable pub plan_sort : ℕ → Sort → Result SortPlan
unfolding key_type
plan_sort i s = elim (s.key) [
  | SortKey.created_at ↦
      ok (record { expr = "v.created_at"; dir = s.dir; ty = timestamp; metric = none })
  | SortKey.metric m ↦
      ok (record {
        expr = "s" +++ decimal i +++ ".value";
        dir = s.dir;
        ty = number;
        metric = some m;
      })
  | SortKey.column column ↦ plan_column s.dir column
  | SortKey.run column ↦ unsupported
]
  where
    plan_column : Dir → Column → Result SortPlan
    plan_column dir (Column.generated name) = generated name >>= λ c.
        ok (record { expr = "v." +++ c.0; dir = dir; ty = key_type c.1; metric = none })
    plan_column dir (Column.ext path ty) = ext_expression path ty >>= λ e.
        ok (record { expr = e; dir = dir; ty = key_type ty; metric = none })
    plan_column dir _ = unsupported

unfoldable pub plans_from : ℕ → List Sort → Result (List SortPlan)
unfolding plan_sort
plans_from i [] = ok []
plans_from i (s ∷ ss) = plan_sort i s >>= λ p. plans_from (suc i) ss >>= λ ps. ok (p ∷ ps)

unfoldable pub plan_sorts : List Sort → Result (List SortPlan)
unfolding plans_from
plan_sorts sort = plans_from 0 sort

unfoldable pub cmp_symbol : Dir → String
cmp_symbol Dir.asc = ">"
cmp_symbol Dir.desc = "<"

unfoldable pub parse_timestamp : Crates → Value → Result ℕ
parse_timestamp c v = as_string v >>= λ s. or_unsupported (c.parse_from_rfc3339 s)

unfoldable pub key_value : Crates → KeyType → Value → Result Bound
unfolding parse_timestamp
key_value c number v = as_f64 c v >>= λ x. ok (Bound.number x)
key_value c text v = as_string v >>= λ s. ok (Bound.text s)
key_value c boolean v = as_bool v >>= λ b. ok (Bound.boolean b)
key_value c timestamp v = parse_timestamp c v >>= λ t. ok (Bound.timestamp t)

unfoldable pub push_key_value : Crates → KeyType → Value → Result Sql
unfolding key_value push_bind
push_key_value c ty v = key_value c ty v >>= push_bind

-- the direction of the last key, and of `version_id` behind it
unfoldable pub tiebreak : List SortPlan → Dir
tiebreak [] = Dir.desc
tiebreak (p ∷ []) = p.dir
tiebreak (p ∷ q ∷ ps) = tiebreak (q ∷ ps)

abbrev pub same_dir : Dir → Dir → Bool
same_dir Dir.asc Dir.asc = true
same_dir Dir.desc Dir.desc = true
same_dir _ _ = false

abbrev pub all_in : Dir → List SortPlan → Bool
all_in d [] = true
all_in d (p ∷ ps) = same_dir p.dir d && all_in d ps

-- A sort key with the value that the cursor carries for it.
abbrev pub Keyed : Type 0
Keyed = SortPlan × Value

abbrev pub zip_keys : List SortPlan → List Value → List Keyed
zip_keys [] vs = []
zip_keys (p ∷ ps) [] = []
zip_keys (p ∷ ps) (v ∷ vs) = (p, v) ∷ zip_keys ps vs

unfoldable pub push_exprs : List SortPlan → Result Sql
unfolding push
push_exprs [] = nothing
push_exprs (p ∷ ps) = push (p.expr +++ ", ") <> push_exprs ps

unfoldable pub push_values : Crates → List Keyed → Result Sql
unfolding push push_key_value
push_values c [] = nothing
push_values c ((p, v) ∷ ks) = push_key_value c p.ty v <> push ", " <> push_values c ks

unfoldable pub push_row : Crates → List SortPlan → List Keyed → Dir → ℕ → Result Sql
unfolding push push_bind cmp_symbol push_exprs push_values
push_row c sorts keyed d version_id =
    push "("
    <> push_exprs sorts
    <> push "v.version_id) "
    <> push (cmp_symbol d)
    <> push " ("
    <> push_values c keyed
    <> push_bind (Bound.uuid version_id)
    <> push ")"

-- The earlier keys, each equal to its value.
unfoldable pub push_equals : Crates → List Keyed → Result Sql
unfolding push push_key_value
push_equals c [] = nothing
push_equals c ((p, v) ∷ ks) =
    push (p.expr +++ " = ") <> push_key_value c p.ty v <> push " AND " <> push_equals c ks

-- between what was pushed for some keys and what comes next
abbrev pub or_between : List Keyed → Result Sql
or_between [] = nothing
or_between (k ∷ ks) = push " OR "

-- One clause for each key: the keys before it are equal and it is beyond its value.
unfoldable pub push_clauses : Crates → List Keyed → List Keyed → Result Sql
unfolding push push_equals push_key_value cmp_symbol
push_clauses c earlier [] = nothing
push_clauses c earlier ((p, v) ∷ ks) =
    or_between earlier
    <> push "("
    <> push_equals c earlier
    <> push (p.expr +++ " " +++ cmp_symbol p.dir +++ " ")
    <> push_key_value c p.ty v
    <> push ")"
    <> push_clauses c (earlier ++ (p, v) ∷ []) ks

unfoldable pub push_mixed : Crates → List Keyed → Dir → ℕ → Result Sql
unfolding push push_bind push_clauses push_equals cmp_symbol
push_mixed c keyed d version_id =
    push "("
    <> push_clauses c [] keyed
    <> or_between keyed
    <> push "("
    <> push_equals c keyed
    <> push ("v.version_id " +++ cmp_symbol d +++ " ")
    <> push_bind (Bound.uuid version_id)
    <> push ")"
    <> push ")"

unfoldable pub push_keyset : Crates → List SortPlan → Cursor → Result Sql
unfolding push push_row push_mixed tiebreak
push_keyset c sorts cursor =
    let d = tiebreak sorts in
    let keyed = zip_keys sorts cursor.keys in
    if not (length cursor.keys == length sorts)
    then unsupported
    else push " AND "
      <> (if all_in d sorts
          then push_row c sorts keyed d cursor.version_id
          else push_mixed c keyed d cursor.version_id)
