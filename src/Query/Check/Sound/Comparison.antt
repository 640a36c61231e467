-- ===== src/Query/Check/Sound/Comparison.antt =====
-- About crates/evalhub-query/src/typecheck.rs: `check_cmp` against `Typing`.
use mathlib.Core.Bool.{false≢true}
use evalhub.Base.{
  ℕ, ◌+◌, String, ◌≡◌, ◌↔◌, refl, ap, sym, ◌∙◌, inl, inr, true, false, not, ◌&&◌, Option, none,
  some, List, [], ◌∷◌, ◌++◌, arith, Bool-cases,
}
use evalhub.Base.Lists.{All, append-eq-nil_iff, ×_iff, ↔_trans}
use evalhub.Json.{Value, as_array}
use evalhub.Query.Ir.{Column, ValueType, Cmp}
use evalhub.Query.Grammar.{ScalarOp, in_list}
use evalhub.Query.Table.{Indexed, full, eq_exists_only, eq_exists_untyped}
use evalhub.Query.Check.Terms.{
  index_serves, literal_matches, is_typed, op_rule, value_rule, scalar_rule, list_rule,
  position_bad, bad_item, check_cmp, unless_pushed,
}
use evalhub.Query.Check.Sound.Steps.{unless_pushed-clean}
use evalhub.Query.Check.Typing.{Suits, Serves, HasLiteral, HasItems, Takes, Allowed, cmp_of}

index_serves_iff :
    (indexed : Indexed) (op : ScalarOp) → (index_serves indexed op ≡ true) ↔ Serves indexed op
unfolding index_serves
index_serves_iff full op = (λ e. tt, λ e. refl)
index_serves_iff eq_exists_only op = ground arith
index_serves_iff eq_exists_untyped op = ground arith

op_rule-eq-nil_iff :
    (ty : ValueType) (indexed : Indexed) (op : ScalarOp) (p : String)
    → (op_rule ty indexed op p ≡ []) ↔ (Suits ty indexed op × Serves indexed op)
op_rule-eq-nil_iff ty full op p = ground (arith, index_serves_iff full op)
op_rule-eq-nil_iff ty eq_exists_only op p = ground (arith, index_serves_iff eq_exists_only op)
op_rule-eq-nil_iff ty eq_exists_untyped op p = ground (arith, index_serves_iff eq_exists_untyped op)

scalar_rule-eq-nil_iff :
    (ty : ValueType) (indexed : Indexed) (v : Value) (p : String)
    → (scalar_rule (is_typed indexed) ty v p ≡ []) ↔ HasLiteral ty indexed v
scalar_rule-eq-nil_iff ty full v p = ground arith
scalar_rule-eq-nil_iff ty eq_exists_only v p = ground arith
scalar_rule-eq-nil_iff ty eq_exists_untyped v p = (λ e. tt, λ e. refl)

literal_test :
    (ty : ValueType) (indexed : Indexed) (v : Value)
    → ((is_typed indexed && not (literal_matches v ty)) ≡ false) ↔ HasLiteral ty indexed v
literal_test ty full v = ground arith
literal_test ty eq_exists_only v = ground arith
literal_test ty eq_exists_untyped v = (λ e. tt, λ e. refl)

position_bad-eq-none_iff :
    (ty : ValueType) (indexed : Indexed) (i : ℕ) (items : List Value)
    → (position_bad (is_typed indexed) ty i items ≡ none) ↔ All (HasLiteral ty indexed) items
unfolding position_bad
position_bad-eq-none_iff ty indexed i [] = (λ e. tt, λ e. refl)
position_bad-eq-none_iff ty indexed i (v ∷ vs) =
    let (to, from) = position_bad-eq-none_iff ty indexed (i + 1) vs in
    let (to', from') = literal_test ty indexed v in
    elim (Bool-cases (is_typed indexed && not (literal_matches v ty))) [
      | inl bad ↦
          rw bad (λ e. absurd (ground arith), λ h. absurd (false≢true (sym (from' h.0) ∙ bad)))
      | inr fine ↦ rw fine (λ e. (to' fine, to e), λ h. from h.1)
    ]

bad_item-eq-nil_iff : (p : String) (o : Option ℕ) → (bad_item p o ≡ []) ↔ (o ≡ none)
bad_item-eq-nil_iff p none = (λ e. refl, λ e. refl)
bad_item-eq-nil_iff p (some i) = (λ e. absurd (ground arith), λ e. absurd (ground arith))

list_rule-eq-nil_iff :
    (ty : ValueType) (indexed : Indexed) (p : String) (o : Option (List Value))
    → (list_rule (is_typed indexed) ty p o ≡ []) ↔ HasItems ty indexed o
list_rule-eq-nil_iff ty indexed p none = (λ e. absurd (ground arith), λ e. absurd e)
list_rule-eq-nil_iff ty indexed p (some items) =
    ↔_trans (bad_item-eq-nil_iff p (position_bad (is_typed indexed) ty 0 items))
      (position_bad-eq-none_iff ty indexed 0 items)

value_rule-eq-nil_iff :
    (ty : ValueType) (indexed : Indexed) (op : ScalarOp) (v : Value) (p : String)
    → (value_rule ty indexed op v p ≡ []) ↔ Takes ty indexed op v
value_rule-eq-nil_iff ty indexed in_list v p = list_rule-eq-nil_iff ty indexed p (as_array v)
value_rule-eq-nil_iff ty indexed _ v p = scalar_rule-eq-nil_iff ty indexed v p

cmp_rules_iff :
    (ty : ValueType) (indexed : Indexed) (op : ScalarOp) (v : Value) (p : String)
    → (op_rule ty indexed op p ++ value_rule ty indexed op v p ≡ [])
      ↔ ((Suits ty indexed op × Serves indexed op) × Takes ty indexed op v)
cmp_rules_iff ty indexed op v p =
    ↔_trans (append-eq-nil_iff (op_rule ty indexed op p) (value_rule ty indexed op v p))
      (×_iff (op_rule-eq-nil_iff ty indexed op p) (value_rule-eq-nil_iff ty indexed op v p))

pub check_cmp_sound :
    (column : Column) (ty : ValueType) (indexed : Indexed) (op : ScalarOp) (v : Value) (p : String)
    (c : Cmp)
    → check_cmp column ty indexed op v p ≡ (some c, [])
    → Allowed ty indexed op v × (cmp_of column op v ≡ c)
unfolding check_cmp
check_cmp_sound column ty indexed op v p c h =
    let (silent, is) =
      unless_pushed-clean (cmp_of column op v) c
        (op_rule ty indexed op p ++ value_rule ty indexed op v p) h in
    let a = (cmp_rules_iff ty indexed op v p).0 silent in ((a.0.0, (a.0.1, a.1)), is)

pub check_cmp_complete :
    (column : Column) (ty : ValueType) (indexed : Indexed) (op : ScalarOp) (v : Value) (p : String)
    → Allowed ty indexed op v
    → check_cmp column ty indexed op v p ≡ (some (cmp_of column op v), [])
unfolding check_cmp
check_cmp_complete column ty indexed op v p a =
    ap (unless_pushed (cmp_of column op v))
      ((cmp_rules_iff ty indexed op v p).1 ((a.0, a.1.0), a.1.1))
