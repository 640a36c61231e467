-- ===== src/Query/Check/Columns.antt =====
-- About crates/evalhub-query/src/typecheck.rs: the columns that a compiled run query reads.
use mathlib.Core.Path.{subst}
use evalhub.Base.{ℕ, ◌⊎◌, ◌≡◌, refl, ap, sym, ◌∙◌, Option, none, some, List}
use evalhub.Json.{Value}
use evalhub.Query.Ir
use evalhub.Query.Ir.{Column, CardRef, RunCursor, RunQuery}
use evalhub.Query.Grammar
use evalhub.Query.Grammar.{ok}
use evalhub.Query.Table.{PathTable, cards, runs, scalar, array}
use evalhub.Query.Table.Laws.{OfRun, IsRunTable, resolve-IsScalarOf}
use evalhub.Query.Check.{QueryRequest, compile_runs}
use evalhub.Query.Check.Reports.{Speaks}
use evalhub.Query.Check.Requests.{FilterOf, compile_runs_iff}
use evalhub.Query.Check.Typing.{
  Means, and_means, or_means, not_means, compare_means, exists_means, any_means, AllMean, none_left,
  one_more,
}

-- Every column of a filter has the property, and it ranges over no array.
mutual
  pub data ReadsOnly (P : Column → Type 0) : Ir.Filter → Type 0 where
    reads_and : {fs : Ir.Filters} → AllReadOnly P fs → ReadsOnly P (Ir.Filter.and fs)
    reads_or : {fs : Ir.Filters} → AllReadOnly P fs → ReadsOnly P (Ir.Filter.or fs)
    reads_not : {f : Ir.Filter} → ReadsOnly P f → ReadsOnly P (Ir.Filter.not f)
    reads_cmp : {c : Ir.Cmp} → P c.column → ReadsOnly P (Ir.Filter.cmp c)
    reads_exists : {column : Column} → P column → ReadsOnly P (Ir.Filter.exists column)

  pub data AllReadOnly (P : Column → Type 0) : Ir.Filters → Type 0 where
    reads_nil : AllReadOnly P Ir.Filters.nil
    reads_cons :
        {f : Ir.Filter} {fs : Ir.Filters}
        → ReadsOnly P f
        → AllReadOnly P fs
        → AllReadOnly P (Ir.Filters.cons f fs)

module _ (named : List CardRef) (t : PathTable) (table : IsRunTable named t) where
  mutual
    Means-ReadsOnly : {f : Grammar.Filter} {g : Ir.Filter} → Means t f g → ReadsOnly (OfRun named) g
    Means-ReadsOnly (and_means h) = reads_and (AllMean-AllReadOnly h)
    Means-ReadsOnly (or_means h) = reads_or (AllMean-AllReadOnly h)
    Means-ReadsOnly (not_means h) = reads_not (Means-ReadsOnly h)
    Means-ReadsOnly (compare_means {path} {column} {ty} {indexed} found allowed) =
        reads_cmp (resolve-IsScalarOf named t path (scalar column ty indexed) table found)
    Means-ReadsOnly (exists_means {path} {column} {ty} {indexed} found) =
        reads_exists (resolve-IsScalarOf named t path (scalar column ty indexed) table found)
    Means-ReadsOnly (any_means {path} {side} found some_terms conditions) =
        absurd (resolve-IsScalarOf named t path (array side) table found)

    AllMean-AllReadOnly :
        {fs : Grammar.Filters} {gs : Ir.Filters} → AllMean t fs gs → AllReadOnly (OfRun named) gs
    AllMean-AllReadOnly none_left = reads_nil
    AllMean-AllReadOnly (one_more h more) =
        reads_cons (Means-ReadsOnly h) (AllMean-AllReadOnly more)

abbrev pub FilterReadsOnly : (Column → Type 0) → Option Ir.Filter → Type 0
FilterReadsOnly P none = Unit
FilterReadsOnly P (some g) = ReadsOnly P g

FilterOf-ReadsOnly :
    (build : Value → Grammar.Filter ⊎ ℕ) (named : List CardRef) (t : PathTable)
    → IsRunTable named t
    → (o : Option Value) (filter : Option Ir.Filter) → FilterOf build t o filter
    → FilterReadsOnly (OfRun named) filter
FilterOf-ReadsOnly build named t table none filter h =
    subst (FilterReadsOnly (OfRun named)) (sym h) tt
FilterOf-ReadsOnly build named t table (some v) filter (ast, (g, (parsed, (means, is)))) =
    subst (FilterReadsOnly (OfRun named)) (sym is) (Means-ReadsOnly named t table means)

cards-of_runs : (t : PathTable) (named : List CardRef) → t.target ≡ runs named → cards t ≡ named
unfolding cards
cards-of_runs t named h = rw h refl

-- A run query that compiles against the table of a run projection carries the table's Cards, and
-- its filter reads only columns of a run and keys below `ext`, with each judgement of a Card named
-- there. It is assumed that the builder gives a diagnostic when it refuses.
pub compile_runs-ReadsOnly :
    (build : Value → Grammar.Filter ⊎ ℕ)
    → Speaks build
    → (named : List CardRef) (t : PathTable) → IsRunTable named t
    → (request : QueryRequest) (limit : ℕ) (cursor : Option RunCursor) (q : RunQuery)
    → compile_runs build request t limit cursor ≡ ok q
    → (q.cards ≡ named) × FilterReadsOnly (OfRun named) q.filter
compile_runs-ReadsOnly build speaks named t table request limit cursor q h =
    let (given, is) = (compile_runs_iff build speaks request t limit cursor q).0 h in
    (
      sym (ap (λ r. r.cards) is) ∙ cards-of_runs t named table.0,
      FilterOf-ReadsOnly build named t table request.where_clause q.filter given.0,
    )
