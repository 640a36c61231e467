-- ===== src/Query/Check/Typing.antt =====
-- About crates/evalhub-query/src/typecheck.rs: the rules by which a filter means a tree.
use evalhub.Base.{String, ◌≡◌, ◌≢◌, true, Option, none, some, List, [], ◌∷◌}
use evalhub.Base.Lists.{All}
use evalhub.Json.{Value, as_array}
use evalhub.Query.Ir
use evalhub.Query.Ir.{ArrayColumn, ArrayTable, Column, ValueType, Cmp}
use evalhub.Query.Grammar
use evalhub.Query.Grammar.{
  ScalarOp, eq, ne, gt, gte, lt, lte, in_list, prefix, contains, MatchTerm, Filter, and, or, not,
  compare, exists, any, no_filters, add_filter,
}
use evalhub.Query.Table.{Indexed, full, eq_exists_untyped, scalar, array, PathTable, resolve}
use evalhub.Query.Check.Terms.{op_suits, literal_matches, to_ir_op, array_column}

-- Where a type is declared, the operator suits it.
abbrev pub Suits : ValueType → Indexed → ScalarOp → Type 0
Suits ty eq_exists_untyped op = Unit
Suits ty _ op = op_suits op ty ≡ true

-- An index over the whole body answers equality alone.
abbrev pub Serves : Indexed → ScalarOp → Type 0
Serves full op = Unit
Serves _ op = op ≡ eq

abbrev pub HasLiteral : ValueType → Indexed → Value → Type 0
HasLiteral ty eq_exists_untyped v = Unit
HasLiteral ty _ v = literal_matches v ty ≡ true

abbrev pub HasItems : ValueType → Indexed → Option (List Value) → Type 0
HasItems ty indexed none = ⊥
HasItems ty indexed (some items) = All (HasLiteral ty indexed) items

-- `in` takes a list of literals of the type, any other operator one literal.
abbrev pub Takes : ValueType → Indexed → ScalarOp → Value → Type 0
Takes ty indexed in_list v = HasItems ty indexed (as_array v)
Takes ty indexed op v = HasLiteral ty indexed v

abbrev pub Allowed : ValueType → Indexed → ScalarOp → Value → Type 0
Allowed ty indexed op v = Suits ty indexed op × (Serves indexed op × Takes ty indexed op v)

abbrev pub cmp_of : Column → ScalarOp → Value → Cmp
cmp_of column op v = record { column = column; op = to_ir_op op; value = v }

-- The conditions of an `any`, each on a column of the table that it ranges over.
pub data Conditions (side : ArrayTable) : List (String × MatchTerm) → List Cmp → Type 0 where
  done : Conditions side [] []
  condition :
      {key : String} {t : MatchTerm} {column : ArrayColumn} {ty : ValueType}
      {terms : List (String × MatchTerm)} {cs : List Cmp}
      → array_column side key ≡ some (column, ty)
      → Allowed ty full t.op t.value
      → Conditions side terms cs
      → Conditions side ((key, t) ∷ terms) (cmp_of (Column.array column) t.op t.value ∷ cs)

mutual
  pub data Means (t : PathTable) : Filter → Ir.Filter → Type 0 where
    and_means :
        {fs : Grammar.Filters} {gs : Ir.Filters}
        → AllMean t fs gs
        → Means t (and fs) (Ir.Filter.and gs)
    or_means :
        {fs : Grammar.Filters} {gs : Ir.Filters}
        → AllMean t fs gs
        → Means t (or fs) (Ir.Filter.or gs)
    not_means : {f : Filter} {g : Ir.Filter} → Means t f g → Means t (not f) (Ir.Filter.not g)
    compare_means :
        {path : String} {op : ScalarOp} {v : Value} {column : Column} {ty : ValueType}
        {indexed : Indexed}
        → resolve t path ≡ some (scalar column ty indexed)
        → Allowed ty indexed op v
        → Means t (compare path op v) (Ir.Filter.cmp (cmp_of column op v))
    exists_means :
        {path : String} {column : Column} {ty : ValueType} {indexed : Indexed}
        → resolve t path ≡ some (scalar column ty indexed)
        → Means t (exists path) (Ir.Filter.exists column)
    any_means :
        {path : String} {terms : List (String × MatchTerm)} {side : ArrayTable} {cs : List Cmp}
        → resolve t path ≡ some (array side)
        → terms ≢ []
        → Conditions side terms cs
        → Means t (any path terms) (Ir.Filter.any side cs)

  pub data AllMean (t : PathTable) : Grammar.Filters → Ir.Filters → Type 0 where
    none_left : AllMean t no_filters Ir.Filters.nil
    one_more :
        {f : Filter} {g : Ir.Filter} {fs : Grammar.Filters} {gs : Ir.Filters}
        → Means t f g
        → AllMean t fs gs
        → AllMean t (add_filter f fs) (Ir.Filters.cons g gs)
