-- ===== src/Core/Validate/Counts.antt =====
-- About crates/evalhub-core/src/validate.rs: the sum of the counts in `semantic`, on a `u64`.
use mathlib.Core.Path.{subst}
use evalhub.Base.{
  ℕ, ◌≤◌, ◌≡◌, inl, inr, String, Option, none, some, arith, Option-cases, Bool-cases, str_eq,
}
use evalhub.Json.{
  Value, null, bool, number, string, array, object, pos_int, neg_int, float, Members, end, member,
  get, get_key, as_u64,
}
use evalhub.Core.Numbers.{max_safe_integer}
use evalhub.Core.Numbers.Laws.{AllFit, AllFitMembers}
use evalhub.Core.Validate.Record.{count, non_null}
use evalhub.Core.Validate.Laws.{CountsFit}

get-AllFit :
    (ms : Members) (key : String) (v : Value) → AllFitMembers ms → get ms key ≡ some v → AllFit v
unfolding get AllFit
get-AllFit end key v h e = cc
get-AllFit (member k w ms) key v h e = elim (Bool-cases (str_eq k key)) [
  | inl same ↦ let is : w ≡ v = ground arith in subst AllFit is h.0
  | inr other ↦ get-AllFit ms key v h.1 (rw other at e)
]

as_u64-fits : (v : Value) (n : ℕ) → AllFit v → as_u64 v ≡ some n → n ≤ max_safe_integer
unfolding AllFit
as_u64-fits (number (pos_int m)) n h e = ground arith
as_u64-fits (number (neg_int m)) n h e = cc
as_u64-fits (number (float f)) n h e = cc
as_u64-fits null n h e = cc
as_u64-fits (bool b) n h e = cc
as_u64-fits (string s) n h e = cc
as_u64-fits (array vs) n h e = cc
as_u64-fits (object ms) n h e = cc

get_key-AllFit : (c : Value) (k : String) (w : Value) → AllFit c → get_key c k ≡ some w → AllFit w
unfolding AllFit
get_key-AllFit (object ms) k w h e = get-AllFit ms k w h e
get_key-AllFit null k w h e = cc
get_key-AllFit (bool b) k w h e = cc
get_key-AllFit (number n) k w h e = cc
get_key-AllFit (string s) k w h e = cc
get_key-AllFit (array vs) k w h e = cc

non_null-some : (o : Option Value) (c : Value) → non_null o ≡ some c → o ≡ some c
non_null-some none c h = h
non_null-some (some v) c h = ground arith

count-fits : (c : Value) (k : String) → AllFit c → count c k ≤ max_safe_integer
count-fits c k h = elim (Option-cases (get_key c k)) [
  | inl missing ↦ rw missing (omega arith)
  | inr (w, found) ↦ elim (Option-cases (as_u64 w)) [
    | inl other ↦ rw (found, other) (omega arith)
    | inr (n, is) ↦ rw (found, is) (as_u64-fits w n (get_key-AllFit c k w h found) is)
  ]
]

pub AllFit-CountsFit : (obj : Members) → AllFit (object obj) → CountsFit obj
AllFit-CountsFit obj h = elim (Option-cases (non_null (get obj "counts"))) [
  | inl missing ↦ rw missing tt
  | inr (c, found) ↦
      let fits =
        get-AllFit obj "counts" c (unfold AllFit in h) (non_null-some (get obj "counts") c found) in
      rw found (
        omega (
          arith,
          count-fits c "completed" fits,
          count-fits c "failed" fits,
          count-fits c "skipped" fits,
          count-fits c "errored" fits,
        ))
]
