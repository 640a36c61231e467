-- ===== src/Store/Sql/Sorts/Pushed.antt =====
-- About crates/evalhub-store/src/query_sql.rs: what is pushed for a cursor is a condition, printed.
use evalhub.Base.{ℕ, String, true, false, ◌≡◌, refl, sym, List, [], ◌∷◌, ◌++◌, ◌∙◌, ap, arith}
use mathlib.Core.List.{append_assoc, append-nil}
use evalhub.Base.Lists.{length, is_empty}
use evalhub.Base.Text.{◌+++◌}
use evalhub.Json.{Value}
use evalhub.Query.Ir.{Dir}
use evalhub.Store.Db.{Result, ok}
use evalhub.Store.Db.Crates.{Crates}
use evalhub.Store.Sql.{Bound, Sql, sql, bind, push, push_bind, ◌>>=◌, ◌<>◌}
use evalhub.Store.Sql.Sorts.{
  SortPlan, Keyed, key_value, cmp_symbol, push_key_value, zip_keys, push_exprs, push_values,
  push_row, push_equals, push_clauses, push_mixed,
}
use evalhub.Store.Sql.Sorts.Keyset.{
  sql_symbol, side_of, Bounds, plans_of, Reads, nil, cons, row, any_of, Clause, print, print_exprs,
  print_values, print_equals, print_clause, print_clauses, clauses_of, last_clause,
}

pub cmp_symbol-sql_symbol : (d : Dir) → cmp_symbol d ≡ sql_symbol (side_of d)
unfolding cmp_symbol
cmp_symbol-sql_symbol Dir.asc = refl
cmp_symbol-sql_symbol Dir.desc = refl

push_exprs-print : (bs : Bounds) → push_exprs (plans_of bs) ≡ ok (print_exprs bs)
unfolding push_exprs push ◌<>◌ ◌>>=◌
push_exprs-print [] = refl
push_exprs-print ((p, b) ∷ bs) = rw (push_exprs-print bs) refl

ok-<> : {r s : Result Sql} {a b : Sql} → r ≡ ok a → s ≡ ok b → r <> s ≡ ok (a ++ b)
unfolding ◌<>◌ ◌>>=◌
ok-<> g h = rw (g, h) refl

push-ok : (s : String) → push s ≡ ok (sql s ∷ [])
unfolding push
push-ok s = refl

push-sql_symbol :
    (text : String → String) (d : Dir)
    → push (text (cmp_symbol d)) ≡ ok (sql (text (sql_symbol (side_of d))) ∷ [])
push-sql_symbol text d =
    ap (λ s. push (text s)) (cmp_symbol-sql_symbol d) ∙ push-ok (text (sql_symbol (side_of d)))

push_bind-ok : (b : Bound) → push_bind b ≡ ok (bind b ∷ [])
unfolding push_bind
push_bind-ok b = refl

pub pushed_and : {r : Result Sql} {s : Sql} → r ≡ ok s → push " AND " <> r ≡ ok (sql " AND " ∷ s)
pushed_and h = ok-<> (push-ok " AND ") h

pub Reads-plans_of :
    (c : Crates) (ps : List SortPlan) (vs : List Value) {bs : Bounds}
    → length vs ≡ length ps
    → Reads c (zip_keys ps vs) bs
    → plans_of bs ≡ ps
Reads-plans_of c [] vs h nil = refl
Reads-plans_of c (p ∷ ps) [] h r = absurd (omega arith)
Reads-plans_of c (p ∷ ps) (v ∷ vs) h (cons q w b e r) =
    ap (λ qs. p ∷ qs) (Reads-plans_of c ps vs (omega arith) r)

module _ (c : Crates) where
  push_values-print :
      {ks : List Keyed} {bs : Bounds} → Reads c ks bs → push_values c ks ≡ ok (print_values bs)
  unfolding push_values push_key_value push push_bind ◌<>◌ ◌>>=◌
  push_values-print nil = refl
  push_values-print (cons p v b e r) = rw (e, push_values-print r) refl

  push_equals-print :
      {ks : List Keyed} {bs : Bounds} → Reads c ks bs → push_equals c ks ≡ ok (print_equals bs)
  unfolding push_equals push_key_value push push_bind ◌<>◌ ◌>>=◌
  push_equals-print nil = refl
  push_equals-print (cons p v b e r) = rw (e, push_equals-print r) refl

  Reads-append :
      {es ks : List Keyed} {as' bs : Bounds}
      → Reads c es as'
      → Reads c ks bs
      → Reads c (es ++ ks) (as' ++ bs)
  Reads-append nil r = r
  Reads-append (cons p v b e g) r = cons p v b e (Reads-append g r)

  is_empty-append : (es : List Keyed) (k : Keyed) → is_empty (es ++ k ∷ []) ≡ false
  is_empty-append [] k = refl
  is_empty-append (e ∷ es) k = refl

  pushed_clause :
      {es : List Keyed} {as' : Bounds} (d : Dir) (expr : String) (b : Bound)
      (value rest : Result Sql) (r : Sql)
      → Reads c es as'
      → value ≡ ok (bind b ∷ [])
      → rest ≡ ok r
      → push "("
          <> push_equals c es
          <> push (expr +++ " " +++ cmp_symbol d +++ " ")
          <> value
          <> push ")"
          <> rest
        ≡ ok (print_clause (record { equals = as'; side = side_of d; expr = expr; value = b }) ++ r)
  pushed_clause {as' = as'} d expr b value rest r g h k =
      ok-<> (push-ok "(") (
        ok-<> (push_equals-print g) (
          ok-<> (push-sql_symbol (λ s. expr +++ " " +++ s +++ " ") d)
            (ok-<> h (ok-<> (push-ok ")") k))))
      ∙ ap (λ l. ok (sql "(" ∷ l)) (sym (append_assoc (print_equals as') _ r))

  push_key_value-ok :
      (p : SortPlan) (v : Value) (b : Bound)
      → key_value c p.ty v ≡ ok b
      → push_key_value c p.ty v ≡ ok (bind b ∷ [])
  unfolding push_key_value push_bind ◌>>=◌
  push_key_value-ok p v b e = rw e refl

  push_clauses-print :
      {es ks : List Keyed} {as' bs : Bounds}
      → Reads c es as'
      → Reads c ks bs
      → push_clauses c es ks ≡ ok (print_clauses (is_empty es) (clauses_of as' bs))
  unfolding push_clauses
  push_clauses-print nil nil = refl
  push_clauses-print (cons p v b e g) nil = refl
  push_clauses-print nil (cons p v b e r) = ok-<> refl (
      pushed_clause _ _ _ _ _ _ nil (push_key_value-ok p v b e)
        (push_clauses-print (cons p v b e nil) r))
  push_clauses-print (cons q w x f g) (cons p v b e r) = ok-<> (push-ok " OR ") (
      pushed_clause _ _ _ _ _ _ (cons q w x f g) (push_key_value-ok p v b e)
        (push_clauses-print (Reads-append (cons q w x f g) (cons p v b e nil)) r))

print_clauses-last :
    (cls : List Clause) (cl : Clause)
    → print_clauses false (cls ++ cl ∷ [])
      ≡ print_clauses false cls ++ (sql " OR " ∷ (print_clause cl ++ []))
print_clauses-last [] cl = refl
print_clauses-last (x ∷ cls) cl =
    ap (λ l. sql " OR " ∷ (print_clause x ++ l)) (print_clauses-last cls cl)
    ∙ ap (λ l. sql " OR " ∷ l) (sym (append_assoc (print_clause x) (print_clauses false cls) _))

closing :
    (x : Clause) (cls : List Clause) (cl : Clause)
    → print_clauses true (x ∷ cls) ++ (sql " OR " ∷ (print_clause cl ++ sql ")" ∷ []))
      ≡ print_clauses true (x ∷ cls ++ cl ∷ []) ++ sql ")" ∷ []
closing x cls cl =
    append_assoc (print_clause x) (print_clauses false cls) _
    ∙ (ap (λ l. print_clause x ++ l)
          (ap (λ l. print_clauses false cls ++ (sql " OR " ∷ (l ++ sql ")" ∷ [])))
              (sym (append-nil (print_clause cl)))
            ∙ (sym (append_assoc (print_clauses false cls) _ _)
                ∙ ap (λ l. l ++ sql ")" ∷ []) (sym (print_clauses-last cls cl))))
        ∙ sym (append_assoc (print_clause x) _ _))

version_text :
    (d : Dir)
    → "v.version_id" +++ " " +++ cmp_symbol d +++ " " ≡ "v.version_id " +++ cmp_symbol d +++ " "
unfolding cmp_symbol
version_text Dir.asc = refl
version_text Dir.desc = refl

module _ (c : Crates) (d : Dir) (id : ℕ) where
  last_pushed :
      {ks : List Keyed} {bs : Bounds}
      → Reads c ks bs
      → push "("
          <> push_equals c ks
          <> push ("v.version_id " +++ cmp_symbol d +++ " ")
          <> push_bind (Bound.uuid id)
          <> push ")"
          <> push ")"
        ≡ ok (print_clause (last_clause bs (side_of d) id) ++ (sql ")" ∷ []))
  last_pushed {ks} r =
      ap
        (λ s.
          push "("
          <> push_equals c ks
          <> push s
          <> push_bind (Bound.uuid id)
          <> push ")"
          <> push ")")
        (sym (version_text d))
      ∙ pushed_clause c d "v.version_id" (Bound.uuid id) _ _ _ r (push_bind-ok (Bound.uuid id))
          (push-ok ")")

  -- Where the keys point in different directions, what is pushed is the list of clauses.
  pub push_mixed-print :
      {ks : List Keyed} {bs : Bounds}
      → Reads c ks bs
      → push_mixed c ks d id
        ≡ ok (print (any_of (clauses_of [] bs ++ last_clause bs (side_of d) id ∷ [])))
  unfolding push_mixed print
  push_mixed-print nil = ok-<> (push-ok "(") (ok-<> refl (ok-<> refl (last_pushed nil)))
  push_mixed-print (cons p v b {bs = bs} e r) =
      ok-<> (push-ok "(") (
        ok-<> (push_clauses-print c nil (cons p v b e r))
          (ok-<> (push-ok " OR ") (last_pushed (cons p v b e r))))
      ∙ ap (λ l. ok (sql "(" ∷ l))
          (closing (record { equals = []; side = side_of p.dir; expr = p.expr; value = b })
            (clauses_of ((p, b) ∷ []) bs) (last_clause ((p, b) ∷ bs) (side_of d) id))

  pub push_row-print :
      {ks : List Keyed} {bs : Bounds}
      → Reads c ks bs
      → push_row c (plans_of bs) ks d id ≡ ok (print (row bs (side_of d) id))
  unfolding push_row print
  push_row-print r = ok-<> (push-ok "(") (
      ok-<> (push_exprs-print _) (
        ok-<> (push-ok "v.version_id) ") (
          ok-<> (push-sql_symbol (λ s. s) d) (
            ok-<> (push-ok " (") (
              ok-<> (push_values-print c r)
                (ok-<> (push_bind-ok (Bound.uuid id)) (push-ok ")")))))))
