-- ===== src/Query/Table.antt =====
-- crates/evalhub-query/src/typecheck.rs: the path table, what each legal path denotes. The reason why a
-- path does not resolve is prose, left out: `resolve` gives `none`.
pub mod Laws
use Prim.Native.String.{String}
use evalhub.Base.{
  Bool, true, false, not, ◌&&◌, ◌||◌, Option, none, some, List, [], ◌∷◌, ◌++◌, if◌then◌else◌,
  str_eq, ◌>>=◌, is_some,
}
use evalhub.Base.Lists.{any}
use evalhub.Base.Text.{◌+++◌, strip_prefix, strip_suffix, split, split_once, split_once_pair}
use evalhub.Core.Ids.{is_valid_id}
use evalhub.Query.Ir.{
  ArrayTable, Column, ext, body, CardRef, parse_card_ref, RunColumn, run, ValueType, ResultField,
}

pub data Indexed : Type 0 where
  full eq_exists_only eq_exists_untyped : Indexed

pub data PathInfo : Type 0 where
  scalar : (column : Column) (ty : ValueType) (indexed : Indexed) → PathInfo
  array : (table : ArrayTable) → PathInfo

pub record ExtSchema : Type 0 where
  pub ns : String
  pub paths : List (List String × ValueType)
  pub applied : Bool

pub data Target : Type 0 where
  record_target : Target
  runs : (cards : List CardRef) → Target

pub record PathTable : Type 0 where
  pub paths : List (String × PathInfo)
  pub target : Target

-- `BTreeMap::get` and `insert`
unfoldable pub find_path : List (String × PathInfo) → String → Option PathInfo
find_path [] path = none
find_path ((k, info) ∷ paths) path = if str_eq k path then some info else find_path paths path

unfoldable pub insert_path : List (String × PathInfo) → String → PathInfo → List (String × PathInfo)
insert_path [] path info = (path, info) ∷ []
insert_path ((k, old) ∷ paths) path info =
    if str_eq k path then (k, info) ∷ paths else (k, old) ∷ insert_path paths path info

-- `segments.join(".")`
abbrev pub join_dots : List String → String
join_dots [] = ""
join_dots (s ∷ []) = s
join_dots (s ∷ (t ∷ rest)) = s +++ "." +++ join_dots (t ∷ rest)

unfoldable pub cards : PathTable → List CardRef
cards t = elim t.target [ record_target ↦ [] | runs named ↦ named ]

unfoldable pub ext_paths :
    String → List (List String × ValueType) → List (String × PathInfo) → List (String × PathInfo)
ext_paths ns [] paths = paths
ext_paths ns ((segments, ty) ∷ rest) paths = ext_paths ns rest (
    insert_path paths ("ext." +++ ns +++ "." +++ join_dots segments)
      (scalar (ext ("ext" ∷ ns ∷ segments) ty) ty full))

unfoldable pub ext_entries : List ExtSchema → List (String × PathInfo) → List (String × PathInfo)
ext_entries [] paths = paths
ext_entries (entry ∷ entries) paths =
    ext_entries entries (if entry.applied then ext_paths entry.ns entry.paths paths else paths)

unfoldable pub with_ext : PathTable → List ExtSchema → PathTable
with_ext t entries = record t { paths = ext_entries entries t.paths }

-- What the parametric forms of the run projection make of a path.
pub data RunParam : Type 0 where
  other refused : RunParam
  found : PathInfo → RunParam

abbrev full_run : RunColumn → ValueType → PathInfo
full_run column ty = scalar (run column) ty full

abbrev metric_param : Option String → RunParam
metric_param none = refused
metric_param (some metric) =
    if is_valid_id metric
    then found (full_run (RunColumn.metric metric) ValueType.number)
    else refused

abbrev pub same_card : CardRef → CardRef → Bool
same_card a b = str_eq a.text b.text

abbrev judgement : CardRef → String → String → RunParam
judgement card metric field =
    if str_eq field "value"
    then found (full_run (RunColumn.result card metric ResultField.value) ValueType.number)
    else if str_eq field "label"
    then found (full_run (RunColumn.result card metric ResultField.label) ValueType.string)
    else refused

abbrev named_card : List CardRef → String → String → Option CardRef → RunParam
named_card cards metric field none = refused
named_card cards metric field (some card) =
    if not (any (same_card card) cards)
    then refused
    else if not (is_valid_id metric)
    then refused
    else judgement card metric field

abbrev metric_and_field : List CardRef → String → Option (String × String) → RunParam
metric_and_field cards card none = refused
metric_and_field cards card (some (metric, field)) =
    named_card cards metric field (parse_card_ref card)

abbrev card_and_rest : List CardRef → Option (String × String) → RunParam
card_and_rest cards none = refused
card_and_rest cards (some (card, rest)) =
    metric_and_field cards card (split_once_pair b']' b'.' rest)

abbrev results_param : String → List CardRef → Option String → RunParam
results_param path cards (some rest) = card_and_rest cards (split_once_pair b']' b'[' rest)
results_param path cards none =
    if str_eq path "results" || is_some (strip_prefix "results." path) then refused else other

abbrev metrics_param : String → List CardRef → Option String → RunParam
metrics_param path cards (some rest) = metric_param (strip_suffix b']' rest)
metrics_param path cards none =
    if str_eq path "metrics" || is_some (strip_prefix "metrics." path)
    then refused
    else results_param path cards (strip_prefix "results[" path)

unfoldable pub resolve_run_param : String → List CardRef → RunParam
resolve_run_param path cards = metrics_param path cards (strip_prefix "metrics[" path)

abbrev ext_key : Option (String × String) → Option PathInfo
ext_key none = none
ext_key (some (ns, key)) =
    if not (str_eq ns "") && not (str_eq key "")
    then some (scalar (body ("ext" ∷ ns ∷ split b'.' key)) ValueType.string eq_exists_untyped)
    else none

abbrev after_ext : Option String → Option PathInfo
after_ext none = none
after_ext (some rest) = ext_key (split_once b'.' rest)

-- An `ext.` path that no registered schema knows.
unfoldable pub unregistered : String → Option PathInfo
unregistered path = after_ext (strip_prefix "ext." path)

abbrev after_param : String → RunParam → Option PathInfo
after_param path other = unregistered path
after_param path refused = none
after_param path (found info) = some info

abbrev by_target : String → Target → Option PathInfo
by_target path record_target = unregistered path
by_target path (runs cards) = after_param path (resolve_run_param path cards)

abbrev after_paths : PathTable → String → Option PathInfo → Option PathInfo
after_paths t path (some info) = some info
after_paths t path none = by_target path t.target

unfoldable pub resolve : PathTable → String → Option PathInfo
resolve t path = after_paths t path (find_path t.paths path)
