-- ===== src/Query/Check/Sound/Filters.antt =====
-- About crates/evalhub-query/src/typecheck.rs: the check of a whole filter against `Typing`.
use mathlib.Core.Path.{subst}
use evalhub.Base.{
  ℕ, ◌+◌, String, ◌≡◌, ◌≢◌, ◌↔◌, refl, ap, ◌∙◌, Option, none, some, List, [], ◌∷◌, arith,
}
use evalhub.Base.Lists.{append-eq-nil}
use evalhub.Base.Text.{◌+++◌}
use evalhub.Base.Decimal.{decimal}
use evalhub.Json.{Value}
use evalhub.Query.Ir
use evalhub.Query.Ir.{ArrayColumn, ArrayTable, Column, ValueType, Cmp}
use evalhub.Query.Grammar
use evalhub.Query.Grammar.{
  ScalarOp, MatchTerm, Filter, and, or, not, compare, exists, any, no_filters, add_filter, Parsed,
  ok, err,
}
use evalhub.Query.Table.{full, PathInfo, scalar, array, PathTable, resolve}
use evalhub.Query.Check.Terms.{
  Checked, array_column, check_cmp, check_term, term_column, check_each, check_terms,
  lookup_or_report, reported,
}
use evalhub.Query.Check.Filters.{compare_at, exists_at, any_at, check_at, check_all, finish, check}
use evalhub.Query.Check.Typing.{
  Conditions, done, condition, Means, and_means, or_means, not_means, compare_means, exists_means,
  any_means, AllMean, none_left, one_more,
}
use evalhub.Query.Check.Sound.Steps.{
  clean, clean_inj, clean_of, map_checked-clean, then_checked-clean, both_some-some,
  both_filters-some,
}
use evalhub.Query.Check.Sound.Comparison.{check_cmp_sound, check_cmp_complete}

lookup-clean :
    (t : PathTable) (path p : String) (info : PathInfo)
    → lookup_or_report t path p ≡ clean info
    → resolve t path ≡ some info
unfolding lookup_or_report
lookup-clean t path p info = by_cases (resolve t path)
  where
    by_cases : (o : Option PathInfo) → reported p o ≡ clean info → o ≡ some info
    by_cases none h = absurd (ground arith)
    by_cases (some i) h = ap some (clean_inj i info h)

term_sound :
    (side : ArrayTable) (p key : String) (m : MatchTerm) (c : Cmp)
    (rest : List (String × MatchTerm)) (cs : List Cmp) (o : Option (ArrayColumn × ValueType))
    → array_column side key ≡ o
    → term_column p m o ≡ clean c
    → Conditions side rest cs
    → Conditions side ((key, m) ∷ rest) (c ∷ cs)
term_sound side p key m c rest cs none found h more = absurd (ground arith)
term_sound side p key m c rest cs (some (column, ty)) found h more =
    let (allowed, is) = check_cmp_sound (Column.array column) ty full m.op m.value p c h in
    subst (λ d. Conditions side ((key, m) ∷ rest) (d ∷ cs)) is (condition found allowed more)

each_sound :
    (side : ArrayTable) (p : String) (terms : List (String × MatchTerm)) (cs : List Cmp)
    → check_each side p terms ≡ clean cs
    → Conditions side terms cs
unfolding check_each
each_sound side p [] cs h = subst (Conditions side []) (clean_inj [] cs h) done
each_sound side p ((key, m) ∷ terms) cs h =
    let first = check_term side p (key, m) in
    let rest = check_each side p terms in
    let (left, right) = append-eq-nil first.1 rest.1 (ap (λ y. y.1) h) in
    let (c, (cs', (at, (more, is)))) = both_some-some first.0 rest.0 cs (ap (λ y. y.0) h) in
    subst (Conditions side ((key, m) ∷ terms)) is (
      term_sound side (p +++ "/match/" +++ key) key m c terms cs' (array_column side key) refl
        (clean_of first c at left) (each_sound side p terms cs' (clean_of rest cs' more right)))

terms_sound :
    (side : ArrayTable) (terms : List (String × MatchTerm)) (p : String) (cs : List Cmp)
    → check_terms side terms p ≡ clean cs
    → (terms ≢ []) × Conditions side terms cs
unfolding check_terms
terms_sound side [] p cs h = absurd (ground arith)
terms_sound side (t ∷ terms) p cs h =
    (λ e. absurd (ground arith), each_sound side p (t ∷ terms) cs h)

module _ (t : PathTable) where
  compare_sound :
      (path : String) (op : ScalarOp) (v : Value) (p : String) (g : Ir.Filter) (info : PathInfo)
      → resolve t path ≡ some info
      → compare_at op v p info ≡ clean g
      → Means t (compare path op v) g
  compare_sound path op v p g (array side) found h = absurd (ground arith)
  compare_sound path op v p g (scalar column ty indexed) found h =
      let (c, (at, is)) =
        map_checked-clean Ir.Filter.cmp (check_cmp column ty indexed op v p) g h in
      let (allowed, same) = check_cmp_sound column ty indexed op v p c at in
      subst (Means t (compare path op v)) (ap Ir.Filter.cmp same ∙ is) (compare_means found allowed)

  exists_sound :
      (path p : String) (g : Ir.Filter) (info : PathInfo)
      → resolve t path ≡ some info
      → exists_at p info ≡ clean g
      → Means t (exists path) g
  exists_sound path p g (array side) found h = absurd (ground arith)
  exists_sound path p g (scalar column ty indexed) found h =
      subst (Means t (exists path)) (clean_inj (Ir.Filter.exists column) g h) (exists_means found)

  any_sound :
      (path : String) (terms : List (String × MatchTerm)) (p : String) (g : Ir.Filter)
      (info : PathInfo)
      → resolve t path ≡ some info
      → any_at terms p info ≡ clean g
      → Means t (any path terms) g
  any_sound path terms p g (scalar column ty indexed) found h = absurd (ground arith)
  any_sound path terms p g (array side) found h =
      let (cs, (at, is)) = map_checked-clean (Ir.Filter.any side) (check_terms side terms p) g h in
      let (some_terms, conditions) = terms_sound side terms p cs at in
      subst (Means t (any path terms)) is (any_means found some_terms conditions)

  mutual
    unfolding check_at check_all

    pub at_sound :
        (f : Filter) (p : String) (g : Ir.Filter) → check_at f t p ≡ clean g → Means t f g
    at_sound (and fs) p g h =
        let (gs, (at, is)) =
          map_checked-clean Ir.Filter.and (check_all fs t (p +++ "/and") 0) g h in
        subst (Means t (and fs)) is (and_means (all_sound fs (p +++ "/and") 0 gs at))
    at_sound (or fs) p g h =
        let (gs, (at, is)) = map_checked-clean Ir.Filter.or (check_all fs t (p +++ "/or") 0) g h in
        subst (Means t (or fs)) is (or_means (all_sound fs (p +++ "/or") 0 gs at))
    at_sound (not f) p g h =
        let (g', (at, is)) = map_checked-clean Ir.Filter.not (check_at f t (p +++ "/not")) g h in
        subst (Means t (not f)) is (not_means (at_sound f (p +++ "/not") g' at))
    at_sound (compare path op v) p g h =
        let (info, (at, is)) =
          then_checked-clean (compare_at op v p) (lookup_or_report t path p) g h in
        compare_sound path op v p g info (lookup-clean t path p info at) is
    at_sound (exists path) p g h =
        let (info, (at, is)) = then_checked-clean (exists_at p) (lookup_or_report t path p) g h in
        exists_sound path p g info (lookup-clean t path p info at) is
    at_sound (any path terms) p g h =
        let (info, (at, is)) =
          then_checked-clean (any_at terms p) (lookup_or_report t path p) g h in
        any_sound path terms p g info (lookup-clean t path p info at) is

    all_sound :
        (fs : Grammar.Filters) (p : String) (i : ℕ) (gs : Ir.Filters)
        → check_all fs t p i ≡ clean gs
        → AllMean t fs gs
    all_sound no_filters p i gs h =
        subst (AllMean t no_filters) (clean_inj Ir.Filters.nil gs h) none_left
    all_sound (add_filter f fs) p i gs h =
        let first = check_at f t (p +++ "/" +++ decimal i) in
        let rest = check_all fs t p (i + 1) in
        let (left, right) = append-eq-nil first.1 rest.1 (ap (λ y. y.1) h) in
        let (g, (gs', (at, (more, is)))) = both_filters-some first.0 rest.0 gs (ap (λ y. y.0) h) in
        subst (AllMean t (add_filter f fs)) is (
          one_more (at_sound f (p +++ "/" +++ decimal i) g (clean_of first g at left))
            (all_sound fs p (i + 1) gs' (clean_of rest gs' more right)))

  each_complete :
      {side : ArrayTable} {terms : List (String × MatchTerm)} {cs : List Cmp} (p : String)
      → Conditions side terms cs
      → check_each side p terms ≡ clean cs
  unfolding check_each
  each_complete p done = refl
  each_complete {side} p (condition {key} {t = m} {column} {ty} found allowed more) =
      let ih = each_complete p more in
      let this =
        check_cmp_complete (Column.array column) ty full m.op m.value (p +++ "/match/" +++ key)
          allowed in
      rw (found, ih, this) refl

  terms_complete :
      {side : ArrayTable} (terms : List (String × MatchTerm)) {cs : List Cmp} (p : String)
      → terms ≢ []
      → Conditions side terms cs
      → check_terms side terms p ≡ clean cs
  unfolding check_terms
  terms_complete [] p some_terms cs = absurd (some_terms refl)
  terms_complete (x ∷ terms) p some_terms cs = each_complete p cs

  lookup_complete :
      (path : String) {info : PathInfo} (p : String)
      → resolve t path ≡ some info
      → lookup_or_report t path p ≡ clean info
  unfolding lookup_or_report
  lookup_complete path p found = ap (reported p) found

  mutual
    unfolding check_at check_all

    pub at_complete :
        {f : Filter} {g : Ir.Filter} (p : String) → Means t f g → check_at f t p ≡ clean g
    at_complete p (and_means h) = rw (all_complete (p +++ "/and") 0 h) refl
    at_complete p (or_means h) = rw (all_complete (p +++ "/or") 0 h) refl
    at_complete p (not_means h) = rw (at_complete (p +++ "/not") h) refl
    at_complete p (compare_means {path} {op} {v} {column} {ty} {indexed} found allowed) =
        rw (lookup_complete path p found, check_cmp_complete column ty indexed op v p allowed) refl
    at_complete p (exists_means {path} found) = rw (lookup_complete path p found) refl
    at_complete p (any_means {path} {terms} found some_terms conditions) =
        rw (lookup_complete path p found, terms_complete terms p some_terms conditions) refl

    all_complete :
        {fs : Grammar.Filters} {gs : Ir.Filters} (p : String) (i : ℕ)
        → AllMean t fs gs
        → check_all fs t p i ≡ clean gs
    all_complete p i none_left = refl
    all_complete p i (one_more h more) =
        rw (at_complete (p +++ "/" +++ decimal i) h, all_complete p (i + 1) more) refl

  finish-ok : (x : Checked Ir.Filter) (g : Ir.Filter) → finish x ≡ ok g → x ≡ clean g
  finish-ok (none, errors) g h = absurd (ground arith)
  finish-ok (some f, []) g h = let is : f ≡ g = ground arith in ap (λ x. clean x) is
  finish-ok (some f, e ∷ errors) g h = absurd (ground arith)

  -- A filter type-checks to a tree exactly when the rules of `Typing` give it that tree: every path
  -- resolves, every operator suits the path's type and index, and every literal has the type.
  pub check_iff : (f : Filter) (g : Ir.Filter) → (check f t ≡ ok g) ↔ Means t f g
  unfolding check
  check_iff f g = (
    λ h. at_sound f "/where" g (finish-ok (check_at f t "/where") g h),
    λ m. ap finish (at_complete "/where" m),
  )
