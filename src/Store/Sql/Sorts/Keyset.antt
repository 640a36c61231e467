-- ===== src/Store/Sql/Sorts/Keyset.antt =====
-- About crates/evalhub-store/src/query_sql.rs: what the condition of a cursor says of a row. A
-- condition is written down here with its meaning, apart from how it is pushed; how a column of the
-- row compares with a bound value is the database's, and is any three tests. No column of the row is
-- NULL: the tests answer true or false, never unknown, so nothing is said of a row with a NULL key,
-- which the source notes as a limitation.
use evalhub.Base.{ℕ, String, Bool, true, false, ◌&&◌, ◌||◌, ◌≡◌, List, [], ◌∷◌, ◌++◌}
use evalhub.Base.Lists.{any}
use evalhub.Base.Text.{◌+++◌}
use evalhub.Json.{Value}
use evalhub.Query.Ir.{Dir}
use evalhub.Store.Db.{ok}
use evalhub.Store.Db.Crates.{Crates}
use evalhub.Store.Sql.{Bound, Sql, sql, bind}
use evalhub.Store.Sql.Sorts.{SortPlan, Keyed, key_value}

-- Which way a comparison goes, and how SQL writes it.
pub data Side : Type 0 where
  greater less : Side

abbrev pub sql_symbol : Side → String
sql_symbol greater = ">"
sql_symbol less = "<"

-- What comes later in an order is greater where it ascends and less where it descends.
abbrev pub side_of : Dir → Side
side_of Dir.asc = greater
side_of Dir.desc = less

-- The direction of the version's id in the order of the rows: that of the last key, and descending
-- where there are no keys.
pub data LastDir (sorts : List SortPlan) : Dir → Type 0 where
  no_keys : sorts ≡ [] → LastDir sorts Dir.desc
  last_key :
      (before : List SortPlan) (p : SortPlan) → sorts ≡ before ++ p ∷ [] → LastDir sorts p.dir

-- How the columns of one row compare with values.
pub record RowTests : Type 0 where
  pub same : String → Bound → Bool
  pub compares : Side → String → Bound → Bool

-- The keys with the values that are bound for them.
abbrev pub Bounds : Type 0
Bounds = List (SortPlan × Bound)

abbrev pub plans_of : Bounds → List SortPlan
plans_of [] = []
plans_of ((p, b) ∷ bs) = p ∷ plans_of bs

-- The row is after the cursor: the first key that differs is beyond its value, or all keys are the
-- same and the version's id is beyond the cursor's.
unfoldable pub is_after : RowTests → Bounds → Dir → ℕ → Bool
is_after t [] d id = t.compares (side_of d) "v.version_id" (Bound.uuid id)
is_after t ((p, b) ∷ bs) d id =
    t.compares (side_of p.dir) p.expr b || (t.same p.expr b && is_after t bs d id)

-- Some columns are the same as their values and one is beyond its own.
pub record Clause : Type 0 where
  pub equals : Bounds
  pub side : Side
  pub expr : String
  pub value : Bound

pub data Condition : Type 0 where
  row : (values : Bounds) (side : Side) (id : ℕ) → Condition
  any_of : List Clause → Condition

abbrev pub all_same : RowTests → Bounds → Bool
all_same t [] = true
all_same t ((p, b) ∷ bs) = t.same p.expr b && all_same t bs

abbrev pub clause_holds : RowTests → Clause → Bool
clause_holds t cl = all_same t cl.equals && t.compares cl.side cl.expr cl.value

-- `(a, b, …) > ($1, $2, …)`: the first pair that differs decides.
abbrev pub row_holds : RowTests → Bounds → Side → ℕ → Bool
row_holds t [] s id = t.compares s "v.version_id" (Bound.uuid id)
row_holds t ((p, b) ∷ bs) s id = t.compares s p.expr b || (t.same p.expr b && row_holds t bs s id)

unfoldable pub holds : RowTests → Condition → Bool
holds t (row values s id) = row_holds t values s id
holds t (any_of clauses) = any (clause_holds t) clauses

abbrev pub print_exprs : Bounds → Sql
print_exprs [] = []
print_exprs ((p, b) ∷ bs) = sql (p.expr +++ ", ") ∷ print_exprs bs

abbrev pub print_values : Bounds → Sql
print_values [] = []
print_values ((p, b) ∷ bs) = bind b ∷ sql ", " ∷ print_values bs

abbrev pub print_equals : Bounds → Sql
print_equals [] = []
print_equals ((p, b) ∷ bs) = sql (p.expr +++ " = ") ∷ bind b ∷ sql " AND " ∷ print_equals bs

abbrev pub print_clause : Clause → Sql
print_clause cl =
    sql "(" ∷ print_equals cl.equals
    ++ (sql (cl.expr +++ " " +++ sql_symbol cl.side +++ " ") ∷ bind cl.value ∷ sql ")" ∷ [])

abbrev pub print_clauses : (is_first : Bool) → List Clause → Sql
print_clauses first [] = []
print_clauses true (cl ∷ cls) = print_clause cl ++ print_clauses false cls
print_clauses false (cl ∷ cls) = sql " OR " ∷ print_clause cl ++ print_clauses false cls

unfoldable pub print : Condition → Sql
print (row values s id) =
    sql "(" ∷ print_exprs values
    ++ (sql "v.version_id) " ∷ sql (sql_symbol s) ∷ sql " (" ∷ print_values values
        ++ (bind (Bound.uuid id) ∷ sql ")" ∷ []))
print (any_of clauses) = sql "(" ∷ print_clauses true clauses ++ sql ")" ∷ []

-- Each value of the cursor reads as its key's type.
pub data Reads (c : Crates) : List Keyed → Bounds → Type 0 where
  nil : Reads c [] []
  cons :
      (p : SortPlan) (v : Value) (b : Bound) {ks : List Keyed} {bs : Bounds}
      → key_value c p.ty v ≡ ok b
      → Reads c ks bs
      → Reads c ((p, v) ∷ ks) ((p, b) ∷ bs)

abbrev pub clauses_of : Bounds → Bounds → List Clause
clauses_of earlier [] = []
clauses_of earlier ((p, b) ∷ bs) =
    record { equals = earlier; side = side_of p.dir; expr = p.expr; value = b }
    ∷ clauses_of (earlier ++ (p, b) ∷ []) bs

abbrev pub last_clause : Bounds → Side → ℕ → Clause
last_clause bs s id = record { equals = bs; side = s; expr = "v.version_id"; value = Bound.uuid id }
