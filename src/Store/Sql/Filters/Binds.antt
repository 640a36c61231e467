-- ===== src/Store/Sql/Filters/Binds.antt =====
-- About crates/evalhub-store/src/query_sql.rs: what the text of a filter's condition may depend on.
use mathlib.Core.Bool.{not as negation}
use evalhub.Base.Lists.{any as any_of}
use evalhub.Base.{String, Option, none, some, List, str_eq}
use evalhub.Json.{Value}
use evalhub.Query.Ir.{ValueType, ArrayTable, ArrayColumn, Column, Op, Cmp, Filter, Filters, table}
use evalhub.Store.Db.Crates.{Crates}
use evalhub.Store.Sql.{unsupported}
use evalhub.Store.Sql.Alike.{
  Alike, Each, left, Alike-if, Alike-push, Alike-push_bind, Alike-refl, Alike-<>, Alike-any,
  Alike-shared,
}
use evalhub.Store.Sql.Path.{facets, generated, ext_expression}
use evalhub.Store.Sql.Filters.{
  push_scalar, push_array, push_operator, compared, like, is_negated, push_fingerprint, push_body,
  push_cmp, push_cmps, push_visible, push_any, push_filter, push_junction, push_more, at_table,
  is_table,
}

-- Two filters that differ at most in the values that columns are compared with.
pub data CmpAlike : Cmp → Cmp → Type 0 where
  at :
      (column : Column) (op : Op) (v w : Value)
      → CmpAlike
          (record { column = column; op = op; value = v })
          (record { column = column; op = op; value = w })

abbrev pub CmpsAlike : List Cmp → List Cmp → Type 0
CmpsAlike = Each CmpAlike

mutual
  pub data FilterAlike : Filter → Filter → Type 0 where
    and : {fs gs : Filters} → FiltersAlike fs gs → FilterAlike (Filter.and fs) (Filter.and gs)
    or : {fs gs : Filters} → FiltersAlike fs gs → FilterAlike (Filter.or fs) (Filter.or gs)
    not : {f g : Filter} → FilterAlike f g → FilterAlike (Filter.not f) (Filter.not g)
    cmp : {x y : Cmp} → CmpAlike x y → FilterAlike (Filter.cmp x) (Filter.cmp y)
    exists : (column : Column) → FilterAlike (Filter.exists column) (Filter.exists column)
    any :
        (t : ArrayTable) {xs ys : List Cmp}
        → CmpsAlike xs ys
        → FilterAlike (Filter.any t xs) (Filter.any t ys)

  pub data FiltersAlike : Filters → Filters → Type 0 where
    nil : FiltersAlike Filters.nil Filters.nil
    cons :
        {f g : Filter} {fs gs : Filters}
        → FilterAlike f g
        → FiltersAlike fs gs
        → FiltersAlike (Filters.cons f fs) (Filters.cons g gs)

-- Whatever two values are compared, the text around them is one.
module _ (c : Crates) (v w : Value) where
  push_scalar-Alike : (ty : ValueType) → Alike (push_scalar c ty v) (push_scalar c ty w)
  unfolding push_scalar
  push_scalar-Alike ty = Alike-any _ _ Alike-push_bind

  push_array-Alike : (ty : ValueType) → Alike (push_array c ty v) (push_array c ty w)
  unfolding push_array
  push_array-Alike ty = Alike-any _ _ Alike-push_bind

  compared-Alike :
      (expr symbol : String) (ty : ValueType)
      → Alike (compared c expr symbol ty v) (compared c expr symbol ty w)
  compared-Alike expr symbol ty = Alike-<> (Alike-push _) (push_scalar-Alike ty)

  like-Alike :
      (pattern : String → String) (expr : String) (ty : ValueType)
      → Alike (like pattern expr ty v) (like pattern expr ty w)
  like-Alike pattern expr ValueType.string =
      Alike-any _ _ (λ s t. Alike-<> (Alike-push _) (Alike-<> (Alike-push_bind _ _) (Alike-push _)))
  like-Alike pattern expr ValueType.number = left _ _
  like-Alike pattern expr ValueType.boolean = left _ _

  push_operator-Alike :
      (expr : String) (op : Op) (ty : ValueType)
      → Alike (push_operator c expr op ty v) (push_operator c expr op ty w)
  unfolding push_operator
  push_operator-Alike expr Op.eq ty = compared-Alike expr "=" ty
  push_operator-Alike expr Op.ne ty = compared-Alike expr "<>" ty
  push_operator-Alike expr Op.gt ty = compared-Alike expr ">" ty
  push_operator-Alike expr Op.gte ty = compared-Alike expr ">=" ty
  push_operator-Alike expr Op.lt ty = compared-Alike expr "<" ty
  push_operator-Alike expr Op.lte ty = compared-Alike expr "<=" ty
  push_operator-Alike expr Op.in_list ty =
      Alike-<> (Alike-push _) (Alike-<> (push_array-Alike ty) (Alike-push _))
  push_operator-Alike expr Op.prefix ty = like-Alike _ expr ty
  push_operator-Alike expr Op.contains ty = like-Alike _ expr ty

  push_fingerprint-Alike :
      (facet : String) (op : Op)
      → Alike (push_fingerprint c facet op v) (push_fingerprint c facet op w)
  unfolding push_fingerprint
  push_fingerprint-Alike facet op = Alike-if (negation (any_of (str_eq facet) facets)) unsupported (
      Alike-shared (is_negated op) (λ negated. Alike-any _ _ (λ s t. Alike-any _ _ (λ x y.
        Alike-<> (Alike-refl _) (
          Alike-<> (Alike-push _) (
            Alike-<> (Alike-push_bind _ _)
              (Alike-<> (Alike-push _) (Alike-<> (Alike-push_bind _ _) (Alike-push _)))))))))

  push_body-Alike :
      (path : List String) (op : Op) → Alike (push_body path op v) (push_body path op w)
  unfolding push_body
  push_body-Alike path Op.eq = Alike-<> (Alike-push _) (Alike-push_bind _ _)
  push_body-Alike path Op.ne = left _ _
  push_body-Alike path Op.gt = left _ _
  push_body-Alike path Op.gte = left _ _
  push_body-Alike path Op.lt = left _ _
  push_body-Alike path Op.lte = left _ _
  push_body-Alike path Op.in_list = left _ _
  push_body-Alike path Op.prefix = left _ _
  push_body-Alike path Op.contains = left _ _

  at_table-Alike :
      (col : ArrayColumn) (alias : Option ArrayTable) (op : Op)
      → Alike (at_table c col alias op v) (at_table c col alias op w)
  at_table-Alike col none op = left _ _
  at_table-Alike col (some t) op =
      Alike-if (negation (is_table (table col) t)) unsupported (push_operator-Alike _ op _)

push_cmp-Alike :
    (c : Crates) (alias : Option ArrayTable) {x y : Cmp}
    → CmpAlike x y
    → Alike (push_cmp c alias x) (push_cmp c alias y)
unfolding push_cmp
push_cmp-Alike c alias (at (Column.fingerprint facet) op v w) =
    push_fingerprint-Alike c v w facet op
push_cmp-Alike c alias (at (Column.body path) op v w) = push_body-Alike c v w path op
push_cmp-Alike c alias (at (Column.array col) op v w) = at_table-Alike c v w col alias op
push_cmp-Alike c alias (at (Column.generated name) op v w) =
    Alike-shared (generated name) (λ column. push_operator-Alike c v w _ op _)
push_cmp-Alike c alias (at (Column.ext path ty) op v w) =
    Alike-shared (ext_expression path ty) (λ expr. push_operator-Alike c v w expr op ty)
push_cmp-Alike c alias (at (Column.run column) op v w) = left _ _

push_cmps-Alike :
    (c : Crates) (t : ArrayTable) {xs ys : List Cmp}
    → CmpsAlike xs ys
    → Alike (push_cmps c t xs) (push_cmps c t ys)
unfolding push_cmps
push_cmps-Alike c t Each.nil = Alike-refl _
push_cmps-Alike c t (Each.cons x xs) =
    Alike-<> (Alike-push _) (Alike-<> (push_cmp-Alike c (some t) x) (push_cmps-Alike c t xs))

module _ (c : Crates) (ns ms : List String) where
  push_visible-Alike : (t : ArrayTable) → Alike (push_visible t ns) (push_visible t ms)
  unfolding push_visible
  push_visible-Alike ArrayTable.results = Alike-refl _
  push_visible-Alike ArrayTable.relations =
      Alike-<> (Alike-push _) (Alike-<> (Alike-push_bind _ _) (Alike-push _))
  push_visible-Alike ArrayTable.attachments = Alike-refl _

  mutual
    unfolding push_filter push_any

    -- Filters that differ at most in the values compared, read by any two callers, have conditions
    -- that differ at most in the values bound.
    pub push_filter-Alike :
        {f g : Filter} → FilterAlike f g → Alike (push_filter c ns f) (push_filter c ms g)
    push_filter-Alike (and h) = push_junction-Alike "AND" "TRUE" h
    push_filter-Alike (or h) = push_junction-Alike "OR" "FALSE" h
    push_filter-Alike (not h) =
        Alike-<> (Alike-push _) (Alike-<> (push_filter-Alike h) (Alike-push _))
    push_filter-Alike (cmp h) = push_cmp-Alike c none h
    push_filter-Alike (exists column) = Alike-refl _
    push_filter-Alike (any t h) =
        Alike-<> (Alike-push _)
          (Alike-<> (push_visible-Alike t) (Alike-<> (push_cmps-Alike c t h) (Alike-push _)))

    push_junction-Alike :
        (joiner empty : String) {fs gs : Filters}
        → FiltersAlike fs gs
        → Alike (push_junction c ns joiner empty fs) (push_junction c ms joiner empty gs)
    push_junction-Alike joiner empty nil = Alike-refl _
    push_junction-Alike joiner empty (cons h hs) =
        Alike-<> (Alike-push _)
          (Alike-<> (push_filter-Alike h) (Alike-<> (push_more-Alike joiner hs) (Alike-push _)))

    push_more-Alike :
        (joiner : String) {fs gs : Filters}
        → FiltersAlike fs gs
        → Alike (push_more c ns joiner fs) (push_more c ms joiner gs)
    push_more-Alike joiner nil = Alike-refl _
    push_more-Alike joiner (cons h hs) =
        Alike-<> (Alike-push _) (Alike-<> (push_filter-Alike h) (push_more-Alike joiner hs))
