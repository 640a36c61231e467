-- ===== src/Query/Check/Terms.antt =====
-- crates/evalhub-query/src/typecheck.rs: one comparison against a path's type and index, and the terms of
-- an `any` match.
use evalhub.Base.{
  ℕ, ◌+◌, String, Bool, true, false, not, ◌&&◌, Option, none, some, List, [], ◌∷◌, ◌++◌,
  if◌then◌else◌, str_eq,
}
use evalhub.Base.Text.{◌+++◌}
use evalhub.Base.Decimal.{decimal}
use evalhub.Json.{Value, as_array, is_number, is_string, is_boolean}
use evalhub.Schema.{ErrorEntry}
use evalhub.Schema.Codes.{schema, type_mismatch, not_indexed, unknown_path}
use evalhub.Core.Report.{push}
use evalhub.Query.Ir.{ArrayColumn, ArrayTable, Column, ValueType, number, string, boolean, Cmp, Op}
use evalhub.Query.Grammar.{ScalarOp, eq, ne, gt, gte, lt, lte, in_list, prefix, contains, MatchTerm}
use evalhub.Query.Table.{
  Indexed, full, eq_exists_only, eq_exists_untyped, PathInfo, PathTable, resolve,
}

-- What a check gives: the node, if there is one, and the problems that it pushed.
abbrev pub Checked {ℓ} : Type ℓ → Type ℓ
Checked A = Option A × List ErrorEntry

unfoldable pub array_column : ArrayTable → String → Option (ArrayColumn × ValueType)
array_column ArrayTable.results key =
    if str_eq key "metric"
    then some (ArrayColumn.result_metric, string)
    else if str_eq key "aggregation"
    then some (ArrayColumn.result_aggregation, string)
    else if str_eq key "value"
    then some (ArrayColumn.result_value, number)
    else if str_eq key "n"
    then some (ArrayColumn.result_n, number)
    else none
array_column ArrayTable.relations key =
    if str_eq key "type"
    then some (ArrayColumn.relation_type, string)
    else if str_eq key "to"
    then some (ArrayColumn.relation_to, string)
    else none
array_column ArrayTable.attachments key =
    if str_eq key "path"
    then some (ArrayColumn.attachment_path, string)
    else if str_eq key "sha256"
    then some (ArrayColumn.attachment_sha256, string)
    else none

abbrev pub ordered : ValueType → Bool
ordered number = true
ordered string = true
ordered boolean = false

abbrev pub textual : ValueType → Bool
textual string = true
textual _ = false

unfoldable pub op_suits : ScalarOp → ValueType → Bool
op_suits eq ty = true
op_suits ne ty = true
op_suits in_list ty = true
op_suits gt ty = ordered ty
op_suits gte ty = ordered ty
op_suits lt ty = ordered ty
op_suits lte ty = ordered ty
op_suits prefix ty = textual ty
op_suits contains ty = textual ty

abbrev pub is_eq : ScalarOp → Bool
is_eq eq = true
is_eq _ = false

unfoldable pub index_serves : Indexed → ScalarOp → Bool
index_serves full op = true
index_serves eq_exists_only op = is_eq op
index_serves eq_exists_untyped op = is_eq op

unfoldable pub literal_matches : Value → ValueType → Bool
literal_matches v number = is_number v
literal_matches v string = is_string v
literal_matches v boolean = is_boolean v

unfoldable pub to_ir_op : ScalarOp → Op
to_ir_op eq = Op.eq
to_ir_op ne = Op.ne
to_ir_op gt = Op.gt
to_ir_op gte = Op.gte
to_ir_op lt = Op.lt
to_ir_op lte = Op.lte
to_ir_op in_list = Op.in_list
to_ir_op prefix = Op.prefix
to_ir_op contains = Op.contains

abbrev pub is_typed : Indexed → Bool
is_typed eq_exists_untyped = false
is_typed _ = true

abbrev pub op_rule : ValueType → Indexed → ScalarOp → String → List ErrorEntry
op_rule ty indexed op pointer =
    if is_typed indexed && not (op_suits op ty)
    then push (pointer +++ "/op") type_mismatch
    else if not (index_serves indexed op)
    then push (pointer +++ "/op") not_indexed
    else []

-- `items.iter().position(…)` of the first element that is not of the type
unfoldable pub position_bad : Bool → ValueType → ℕ → List Value → Option ℕ
position_bad typed ty i [] = none
position_bad typed ty i (v ∷ vs) =
    if typed && not (literal_matches v ty) then some i else position_bad typed ty (i + 1) vs

abbrev pub bad_item : String → Option ℕ → List ErrorEntry
bad_item pointer none = []
bad_item pointer (some i) = push (pointer +++ "/value/" +++ decimal i) type_mismatch

abbrev pub list_rule : Bool → ValueType → String → Option (List Value) → List ErrorEntry
list_rule typed ty pointer none = push (pointer +++ "/value") type_mismatch
list_rule typed ty pointer (some items) = bad_item pointer (position_bad typed ty 0 items)

abbrev pub scalar_rule : Bool → ValueType → Value → String → List ErrorEntry
scalar_rule typed ty value pointer =
    if typed && not (literal_matches value ty)
    then push (pointer +++ "/value") type_mismatch
    else []

abbrev pub value_rule : ValueType → Indexed → ScalarOp → Value → String → List ErrorEntry
value_rule ty indexed in_list value pointer =
    list_rule (is_typed indexed) ty pointer (as_array value)
value_rule ty indexed op value pointer = scalar_rule (is_typed indexed) ty value pointer

-- The node is made exactly when nothing was pushed: `ok` falls with each push.
abbrev pub unless_pushed {ℓ} : {A : Type ℓ} → A → List ErrorEntry → Checked A
unless_pushed a [] = (some a, [])
unless_pushed a (e ∷ errors) = (none, e ∷ errors)

unfoldable pub check_cmp : Column → ValueType → Indexed → ScalarOp → Value → String → Checked Cmp
check_cmp column ty indexed op value pointer =
    unless_pushed (record { column = column; op = to_ir_op op; value = value })
      (op_rule ty indexed op pointer ++ value_rule ty indexed op value pointer)

abbrev pub term_column : String → MatchTerm → Option (ArrayColumn × ValueType) → Checked Cmp
term_column pointer t none = (none, push pointer unknown_path)
term_column pointer t (some (column, ty)) =
    check_cmp (Column.array column) ty full t.op t.value pointer

-- One round of the loop over the terms.
abbrev pub check_term : ArrayTable → String → String × MatchTerm → Checked Cmp
check_term side pointer (key, t) =
    term_column (pointer +++ "/match/" +++ key) t (array_column side key)

abbrev pub both_some {ℓ} : {A : Type ℓ} → Option A → Option (List A) → Option (List A)
both_some (some a) (some as') = some (a ∷ as')
both_some _ _ = none

unfoldable pub check_each : ArrayTable → String → List (String × MatchTerm) → Checked (List Cmp)
check_each side pointer [] = (some [], [])
check_each side pointer (t ∷ terms) =
    let (condition, errors) = check_term side pointer t in
    let (conditions, more) = check_each side pointer terms in
    (both_some condition conditions, errors ++ more)

unfoldable pub check_terms : ArrayTable → List (String × MatchTerm) → String → Checked (List Cmp)
check_terms side [] pointer = (none, push (pointer +++ "/match") schema)
check_terms side (t ∷ terms) pointer = check_each side pointer (t ∷ terms)

abbrev pub reported : String → Option PathInfo → Checked PathInfo
reported pointer (some info) = (some info, [])
reported pointer none = (none, push (pointer +++ "/path") unknown_path)

unfoldable pub lookup_or_report : PathTable → String → String → Checked PathInfo
lookup_or_report t path pointer = reported pointer (resolve t path)
