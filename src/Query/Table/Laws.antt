-- ===== src/Query/Table/Laws.antt =====
-- About crates/evalhub-query/src/typecheck.rs: the columns that a table's paths denote.
use mathlib.Core.Path.{subst}
use evalhub.Base.{
  ◌||◌, ◌&&◌, String, ◌≡◌, inl, inr, true, not, Option, none, some, List, [], ◌∷◌, str_eq, arith,
  Bool-cases, Option-cases, is_some,
}
use evalhub.Base.Lists.{any}
use evalhub.Base.Text.{strip_prefix, strip_suffix, split_once, split_once_pair}
use evalhub.Core.Ids.{is_valid_id}
use evalhub.Query.Ir.{Column, ext, body, CardRef, parse_card_ref, RunColumn, run, ValueType}
use evalhub.Query.Table

-- The column of a run: one of its own, whose Card is named in the request where it has one, or a key
-- below `ext`.
abbrev pub OfRun : List CardRef → Column → Type 0
OfRun cards (run (RunColumn.result card metric field)) = any (Table.same_card card) cards ≡ true
OfRun cards (run c) = Unit
OfRun cards (ext path ty) = Unit
OfRun cards (body path) = Unit
OfRun cards _ = ⊥

abbrev pub IsScalarOf : (Column → Type 0) → Table.PathInfo → Type 0
IsScalarOf P (Table.scalar column ty indexed) = P column
IsScalarOf P (Table.array side) = ⊥

-- A table of runs: every listed path is a column of a run, for the Cards that the table names.
abbrev pub AllScalarsOf : (Column → Type 0) → List (String × Table.PathInfo) → Type 0
AllScalarsOf P [] = Unit
AllScalarsOf P ((k, info) ∷ paths) = IsScalarOf P info × AllScalarsOf P paths

find_path-IsScalarOf :
    (P : Column → Type 0) (paths : List (String × Table.PathInfo)) (path : String)
    (info : Table.PathInfo)
    → AllScalarsOf P paths
    → Table.find_path paths path ≡ some info
    → IsScalarOf P info
unfolding Table.find_path
find_path-IsScalarOf P [] path info all h = absurd (ground arith)
find_path-IsScalarOf P ((k, i) ∷ paths) path info (this, all) h =
    elim (Bool-cases (str_eq k path)) [
      | inl e ↦ let is : i ≡ info = ground arith in subst (IsScalarOf P) is this
      | inr e ↦ find_path-IsScalarOf P paths path info all (ground arith)
    ]

insert_path-AllScalarsOf :
    (P : Column → Type 0) (paths : List (String × Table.PathInfo)) (path : String)
    (info : Table.PathInfo)
    → IsScalarOf P info
    → AllScalarsOf P paths
    → AllScalarsOf P (Table.insert_path paths path info)
unfolding Table.insert_path
insert_path-AllScalarsOf P [] path info h all = (h, tt)
insert_path-AllScalarsOf P ((k, i) ∷ paths) path info h (this, all) =
    elim (Bool-cases (str_eq k path)) [
      | inl e ↦ rw e (h, all)
      | inr e ↦ rw e (this, insert_path-AllScalarsOf P paths path info h all)
    ]

module _ (P : Column → Type 0)
    (every_ext : (path : List String) (ty : ValueType) → P (ext path ty)) where
  ext_paths-AllScalarsOf :
      (ns : String) (entries : List (List String × ValueType))
      (paths : List (String × Table.PathInfo))
      → AllScalarsOf P paths
      → AllScalarsOf P (Table.ext_paths ns entries paths)
  unfolding Table.ext_paths
  ext_paths-AllScalarsOf ns [] paths all = all
  ext_paths-AllScalarsOf ns ((segments, ty) ∷ rest) paths all =
      ext_paths-AllScalarsOf ns rest _
        (insert_path-AllScalarsOf P paths _ _ (every_ext ("ext" ∷ ns ∷ segments) ty) all)

  ext_entries-AllScalarsOf :
      (entries : List Table.ExtSchema) (paths : List (String × Table.PathInfo))
      → AllScalarsOf P paths
      → AllScalarsOf P (Table.ext_entries entries paths)
  unfolding Table.ext_entries
  ext_entries-AllScalarsOf [] paths all = all
  ext_entries-AllScalarsOf (entry ∷ entries) paths all =
      ext_entries-AllScalarsOf entries _ (elim (Bool-cases entry.applied) [
        | inl e ↦ rw e (ext_paths-AllScalarsOf entry.ns entry.paths paths all)
        | inr e ↦ rw e all
      ])

  pub with_ext-AllScalarsOf :
      (t : Table.PathTable) (entries : List Table.ExtSchema)
      → AllScalarsOf P t.paths
      → AllScalarsOf P (Table.with_ext t entries).paths
  unfolding Table.with_ext
  with_ext-AllScalarsOf t entries all = ext_entries-AllScalarsOf entries t.paths all

-- What a parametric path denotes is a column of a run.
abbrev pub IsFoundOf : List CardRef → Table.RunParam → Type 0
IsFoundOf cards (Table.found info) = IsScalarOf (OfRun cards) info
IsFoundOf cards _ = Unit

judgement-IsFoundOf :
    (cards : List CardRef) (card : CardRef) (metric field : String)
    → any (Table.same_card card) cards ≡ true
    → IsFoundOf cards (Table.judgement card metric field)
judgement-IsFoundOf cards card metric field h = elim (Bool-cases (str_eq field "value")) [
  | inl e ↦ rw e h
  | inr e ↦ rw e (elim (Bool-cases (str_eq field "label")) [ inl k ↦ rw k h | inr k ↦ rw k tt ])
]

named_card-IsFoundOf :
    (cards : List CardRef) (metric field : String) (o : Option CardRef)
    → IsFoundOf cards (Table.named_card cards metric field o)
named_card-IsFoundOf cards metric field none = tt
named_card-IsFoundOf cards metric field (some card) =
    elim (Bool-cases (any (Table.same_card card) cards)) [
      | inl e ↦ rw e (elim (Bool-cases (is_valid_id metric)) [
        | inl k ↦ rw k (judgement-IsFoundOf cards card metric field e)
        | inr k ↦ rw k tt
      ])
      | inr e ↦ rw e tt
    ]

metric_and_field-IsFoundOf :
    (cards : List CardRef) (card : String) (o : Option (String × String))
    → IsFoundOf cards (Table.metric_and_field cards card o)
metric_and_field-IsFoundOf cards card none = tt
metric_and_field-IsFoundOf cards card (some (metric, field)) =
    named_card-IsFoundOf cards metric field (parse_card_ref card)

card_and_rest-IsFoundOf :
    (cards : List CardRef) (o : Option (String × String))
    → IsFoundOf cards (Table.card_and_rest cards o)
card_and_rest-IsFoundOf cards none = tt
card_and_rest-IsFoundOf cards (some (card, rest)) =
    metric_and_field-IsFoundOf cards card (split_once_pair b']' b'.' rest)

results_param-IsFoundOf :
    (path : String) (cards : List CardRef) (o : Option String)
    → IsFoundOf cards (Table.results_param path cards o)
results_param-IsFoundOf path cards (some rest) =
    card_and_rest-IsFoundOf cards (split_once_pair b']' b'[' rest)
results_param-IsFoundOf path cards none =
    elim (Bool-cases (str_eq path "results" || is_some (strip_prefix "results." path))) [
      | inl e ↦ rw e tt
      | inr e ↦ rw e tt
    ]

metric_param-IsFoundOf :
    (cards : List CardRef) (o : Option String) → IsFoundOf cards (Table.metric_param o)
metric_param-IsFoundOf cards none = tt
metric_param-IsFoundOf cards (some metric) = elim (Bool-cases (is_valid_id metric)) [
  | inl e ↦ rw e tt
  | inr e ↦ rw e tt
]

metrics_param-IsFoundOf :
    (path : String) (cards : List CardRef) (o : Option String)
    → IsFoundOf cards (Table.metrics_param path cards o)
metrics_param-IsFoundOf path cards (some rest) =
    metric_param-IsFoundOf cards (strip_suffix b']' rest)
metrics_param-IsFoundOf path cards none =
    elim (Bool-cases (str_eq path "metrics" || is_some (strip_prefix "metrics." path))) [
      | inl e ↦ rw e tt
      | inr e ↦ rw e (results_param-IsFoundOf path cards (strip_prefix "results[" path))
    ]

-- Whatever may be in a place is a scalar with such a column.
abbrev AnyScalarOf : (Column → Type 0) → Option Table.PathInfo → Type 0
AnyScalarOf P none = Unit
AnyScalarOf P (some info) = IsScalarOf P info

ext_key-AnyScalarOf :
    (cards : List CardRef) (o : Option (String × String))
    → AnyScalarOf (OfRun cards) (Table.ext_key o)
ext_key-AnyScalarOf cards none = tt
ext_key-AnyScalarOf cards (some (ns, key)) =
    elim (Bool-cases (not (str_eq ns "") && not (str_eq key ""))) [
      | inl e ↦ rw e tt
      | inr e ↦ rw e tt
    ]

after_ext-AnyScalarOf :
    (cards : List CardRef) (o : Option String) → AnyScalarOf (OfRun cards) (Table.after_ext o)
after_ext-AnyScalarOf cards none = tt
after_ext-AnyScalarOf cards (some rest) = ext_key-AnyScalarOf cards (split_once b'.' rest)

after_param-AnyScalarOf :
    (cards : List CardRef) (path : String) (p : Table.RunParam)
    → IsFoundOf cards p
    → AnyScalarOf (OfRun cards) (Table.after_param path p)
unfolding Table.unregistered
after_param-AnyScalarOf cards path Table.other h =
    after_ext-AnyScalarOf cards (strip_prefix "ext." path)
after_param-AnyScalarOf cards path Table.refused h = tt
after_param-AnyScalarOf cards path (Table.found info) h = h

-- The table of a run projection for the Cards.
abbrev pub IsRunTable : List CardRef → Table.PathTable → Type 0
IsRunTable cards t = (t.target ≡ Table.runs cards) × AllScalarsOf (OfRun cards) t.paths

resolve-AnyScalarOf :
    (cards : List CardRef) (t : Table.PathTable) (path : String)
    → IsRunTable cards t
    → AnyScalarOf (OfRun cards) (Table.resolve t path)
unfolding Table.resolve Table.resolve_run_param
resolve-AnyScalarOf cards t path (is, all) = elim (Option-cases (Table.find_path t.paths path)) [
  | inl n ↦
      rw (n, is)
        (after_param-AnyScalarOf cards path (Table.resolve_run_param path cards)
          (metrics_param-IsFoundOf path cards (strip_prefix "metrics[" path)))
  | inr (info, s) ↦ rw s (find_path-IsScalarOf (OfRun cards) t.paths path info all s)
]

pub resolve-IsScalarOf :
    (cards : List CardRef) (t : Table.PathTable) (path : String) (info : Table.PathInfo)
    → IsRunTable cards t
    → Table.resolve t path ≡ some info
    → IsScalarOf (OfRun cards) info
resolve-IsScalarOf cards t path info table h =
    subst (AnyScalarOf (OfRun cards)) h (resolve-AnyScalarOf cards t path table)
