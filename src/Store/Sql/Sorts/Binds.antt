-- ===== src/Store/Sql/Sorts/Binds.antt =====
-- About crates/evalhub-store/src/query_sql.rs: what the text of the sort keys and of a cursor's
-- condition may depend on.
use evalhub.Base.{
  ℕ, suc, String, Bool, true, false, ◌≡◌, refl, Option, none, some, List, [], ◌∷◌, ◌++◌, inl, inr,
  ◌==◌, ==_iff, arith, ap, Bool-cases, if◌then◌else◌,
}
use evalhub.Base.Lists.{length}
use evalhub.Json.{Value}
use evalhub.Query.Ir.{SortKey, Sort, Dir, Cursor}
use evalhub.Store.Db.{Result, ok, err}
use evalhub.Store.Db.Crates.{Crates}
use evalhub.Store.Sql.{◌>>=◌}
use evalhub.Store.Sql.Alike.{
  Alike, Agree, Each, Maybe, both, left, right, nil, cons, absent, present, Alike-push,
  Alike-push_bind, Alike-refl, Alike-<>, Alike-any,
}
use evalhub.Store.Sql.Sorts.{
  KeyType, SortPlan, Keyed, plan_sort, plans_from, plan_sorts, push_key_value, tiebreak, all_in,
  zip_keys, push_exprs, push_values, push_row, push_equals, push_clauses, push_mixed, push_keyset,
  or_between,
}

-- Two sort keys that differ at most in the name of a metric.
pub data SortAlike : Sort → Sort → Type 0 where
  same : (s : Sort) → SortAlike s s
  metrics :
      (m n : String) (dir : Dir)
      → SortAlike
          (record { key = SortKey.metric m; dir = dir })
          (record { key = SortKey.metric n; dir = dir })

-- The names of two metrics, or no metrics.
abbrev MetricAlike : Option String → Option String → Type 0
MetricAlike = Maybe (λ _ _. Unit)

pub data PlanAlike : SortPlan → SortPlan → Type 0 where
  plan :
      (expr : String) (dir : Dir) (ty : KeyType) {m n : Option String}
      → MetricAlike m n
      → PlanAlike
          (record { expr = expr; dir = dir; ty = ty; metric = m })
          (record { expr = expr; dir = dir; ty = ty; metric = n })

abbrev pub PlansAlike : List SortPlan → List SortPlan → Type 0
PlansAlike = Each PlanAlike

MetricAlike-refl : (m : Option String) → MetricAlike m m
MetricAlike-refl none = absent
MetricAlike-refl (some m) = present tt

PlanAlike-refl : (p : SortPlan) → PlanAlike p p
PlanAlike-refl p = plan p.expr p.dir p.ty (MetricAlike-refl p.metric)

Agree-refl : (r : Result SortPlan) → Agree PlanAlike r r
Agree-refl (ok p) = both (PlanAlike-refl p)
Agree-refl (err e) = left e _

plan_sort-Agree :
    (i : ℕ) {s t : Sort} → SortAlike s t → Agree PlanAlike (plan_sort i s) (plan_sort i t)
unfolding plan_sort
plan_sort-Agree i (same s) = Agree-refl _
plan_sort-Agree i (metrics m n dir) = both (plan _ dir _ (present tt))

Agree-cons :
    {r s : Result SortPlan} {ps qs : Result (List SortPlan)}
    → Agree PlanAlike r s
    → Agree PlansAlike ps qs
    → Agree PlansAlike (r >>= λ p. ps >>= λ ps. ok (p ∷ ps)) (s >>= λ q. qs >>= λ qs. ok (q ∷ qs))
unfolding ◌>>=◌
Agree-cons (left e r) h = left e _
Agree-cons (right r e) h = right _ e
Agree-cons (both h) (both hs) = both (cons h hs)
Agree-cons (both h) (left e r) = left e _
Agree-cons (both h) (right r e) = right _ e

plans_from-Agree :
    (i : ℕ) {ss ts : List Sort}
    → Each SortAlike ss ts
    → Agree PlansAlike (plans_from i ss) (plans_from i ts)
unfolding plans_from
plans_from-Agree i nil = both nil
plans_from-Agree i (cons h hs) = Agree-cons (plan_sort-Agree i h) (plans_from-Agree (suc i) hs)

pub plan_sorts-Agree :
    {ss ts : List Sort} → Each SortAlike ss ts → Agree PlansAlike (plan_sorts ss) (plan_sorts ts)
unfolding plan_sorts
plan_sorts-Agree h = plans_from-Agree 0 h

pub tiebreak-PlansAlike : {ps qs : List SortPlan} → PlansAlike ps qs → tiebreak ps ≡ tiebreak qs
unfolding tiebreak
tiebreak-PlansAlike nil = refl
tiebreak-PlansAlike (cons (plan e d ty m) nil) = refl
tiebreak-PlansAlike (cons (plan e d ty m) (cons h hs)) = tiebreak-PlansAlike (cons h hs)

all_in-PlansAlike : (d : Dir) {ps qs : List SortPlan} → PlansAlike ps qs → all_in d ps ≡ all_in d qs
all_in-PlansAlike d nil = refl
all_in-PlansAlike d (cons (plan e f ty m) hs) = rw (all_in-PlansAlike d hs) refl

length-PlansAlike : {ps qs : List SortPlan} → PlansAlike ps qs → length ps ≡ length qs
length-PlansAlike nil = refl
length-PlansAlike (cons h hs) = ap suc (length-PlansAlike hs)

-- Keys that are alike, with any two values.
abbrev KeyedAlike : List Keyed → List Keyed → Type 0
KeyedAlike = Each (λ k l. PlanAlike k.0 l.0)

zip_keys-KeyedAlike :
    {ps qs : List SortPlan} (vs ws : List Value)
    → PlansAlike ps qs
    → length vs ≡ length ps
    → length ws ≡ length qs
    → KeyedAlike (zip_keys ps vs) (zip_keys qs ws)
zip_keys-KeyedAlike vs ws nil g h = nil
zip_keys-KeyedAlike [] ws (cons k ks) g h = absurd (omega arith)
zip_keys-KeyedAlike (v ∷ vs) [] (cons k ks) g h = absurd (omega arith)
zip_keys-KeyedAlike (v ∷ vs) (w ∷ ws) (cons k ks) g h =
    cons k (zip_keys-KeyedAlike vs ws ks (omega arith) (omega arith))

append-KeyedAlike :
    {ks ls : List Keyed} (p q : SortPlan) (v w : Value)
    → KeyedAlike ks ls
    → PlanAlike p q
    → KeyedAlike (ks ++ (p, v) ∷ []) (ls ++ (q, w) ∷ [])
append-KeyedAlike p q v w nil h = cons h nil
append-KeyedAlike p q v w (cons g gs) h = cons g (append-KeyedAlike p q v w gs h)

pub push_exprs-Alike :
    {ps qs : List SortPlan} → PlansAlike ps qs → Alike (push_exprs ps) (push_exprs qs)
unfolding push_exprs
push_exprs-Alike nil = Alike-refl _
push_exprs-Alike (cons (plan e d ty m) hs) = Alike-<> (Alike-push _) (push_exprs-Alike hs)

module _ (c : Crates) where
  push_key_value-Alike :
      (ty : KeyType) (v w : Value) → Alike (push_key_value c ty v) (push_key_value c ty w)
  unfolding push_key_value
  push_key_value-Alike ty v w = Alike-any _ _ Alike-push_bind

  push_values-Alike :
      {ks ls : List Keyed} → KeyedAlike ks ls → Alike (push_values c ks) (push_values c ls)
  unfolding push_values
  push_values-Alike nil = Alike-refl _
  push_values-Alike (cons (plan e d ty m) hs) =
      Alike-<> (push_key_value-Alike ty _ _) (Alike-<> (Alike-push _) (push_values-Alike hs))

  push_equals-Alike :
      {ks ls : List Keyed} → KeyedAlike ks ls → Alike (push_equals c ks) (push_equals c ls)
  unfolding push_equals
  push_equals-Alike nil = Alike-refl _
  push_equals-Alike (cons (plan e d ty m) hs) =
      Alike-<> (Alike-push _)
        (Alike-<> (push_key_value-Alike ty _ _) (Alike-<> (Alike-push _) (push_equals-Alike hs)))

  or_between-Alike : {ks ls : List Keyed} → KeyedAlike ks ls → Alike (or_between ks) (or_between ls)
  or_between-Alike nil = Alike-refl _
  or_between-Alike (cons h hs) = Alike-refl _

  push_clauses-Alike :
      {es fs ks ls : List Keyed}
      → KeyedAlike es fs
      → KeyedAlike ks ls
      → Alike (push_clauses c es ks) (push_clauses c fs ls)
  unfolding push_clauses
  push_clauses-Alike g nil = Alike-refl _
  push_clauses-Alike g (cons (plan e d ty m) hs) = Alike-<> (or_between-Alike g) (
      Alike-<> (Alike-push _) (
        Alike-<> (push_equals-Alike g) (
          Alike-<> (Alike-push _) (
            Alike-<> (push_key_value-Alike ty _ _) (
              Alike-<> (Alike-push _)
                (push_clauses-Alike (append-KeyedAlike _ _ _ _ g (plan e d ty m)) hs))))))

  push_row-Alike :
      {ps qs : List SortPlan} {ks ls : List Keyed} (d : Dir) (i j : ℕ)
      → PlansAlike ps qs
      → KeyedAlike ks ls
      → Alike (push_row c ps ks d i) (push_row c qs ls d j)
  unfolding push_row
  push_row-Alike d i j g h = Alike-<> (Alike-push _) (
      Alike-<> (push_exprs-Alike g) (
        Alike-<> (Alike-push _) (
          Alike-<> (Alike-push _) (
            Alike-<> (Alike-push _)
              (Alike-<> (push_values-Alike h) (Alike-<> (Alike-push_bind _ _) (Alike-push _)))))))

  push_mixed-Alike :
      {ks ls : List Keyed} (d : Dir) (i j : ℕ)
      → KeyedAlike ks ls
      → Alike (push_mixed c ks d i) (push_mixed c ls d j)
  unfolding push_mixed
  push_mixed-Alike d i j h = Alike-<> (Alike-push _) (
      Alike-<> (push_clauses-Alike nil h) (
        Alike-<> (or_between-Alike h) (
          Alike-<> (Alike-push _) (
            Alike-<> (push_equals-Alike h) (
              Alike-<> (Alike-push _)
                (Alike-<> (Alike-push_bind _ _) (Alike-<> (Alike-push _) (Alike-push _))))))))

  push_after-Alike :
      {ps qs : List SortPlan} {ks ls : List Keyed} (b : Bool) (d : Dir) (i j : ℕ)
      → PlansAlike ps qs
      → KeyedAlike ks ls
      → Alike
          (if b then push_row c ps ks d i else push_mixed c ks d i)
          (if b then push_row c qs ls d j else push_mixed c ls d j)
  push_after-Alike true d i j g h = push_row-Alike d i j g h
  push_after-Alike false d i j g h = push_mixed-Alike d i j h

  -- The conditions of two cursors, on sort keys that differ at most in the names of metrics, differ
  -- at most in the values bound.
  pub push_keyset-Alike :
      {ps qs : List SortPlan} (k l : Cursor)
      → PlansAlike ps qs
      → Alike (push_keyset c ps k) (push_keyset c qs l)
  unfolding push_keyset
  push_keyset-Alike {ps} {qs} k l h = elim (Bool-cases (length k.keys == length ps)) [
    | inr bad ↦ rw bad (left _ _)
    | inl good ↦ elim (Bool-cases (length l.keys == length qs)) [
      | inr bad ↦ rw bad (right _ _)
      | inl fine ↦
          rw (good, fine, tiebreak-PlansAlike h, all_in-PlansAlike (tiebreak qs) h)
            (Alike-<> (Alike-push _) (
              push_after-Alike _ _ _ _ h
                (zip_keys-KeyedAlike _ _ h ((==_iff _ _).0 good) ((==_iff _ _).0 fine))))
    ]
  ]
