-- ===== src/Store/Sql/Page/Text.antt =====
-- About crates/evalhub-store/src/query_sql.rs: what the text of a statement may depend on.
use evalhub.Base.{ℕ, suc, String, ◌≡◌, Option, List, arith}
use evalhub.Query.Ir.{Query, Filter, Sort, Cursor, VersionSelector, RecordType, Expand}
use evalhub.Store.Db.{Result, ok, err}
use evalhub.Store.Db.Crates.{Crates}
use evalhub.Store.Sql.{Sql, ◌>>=◌}
use evalhub.Store.Sql.Alike.{
  SameText, Alike, Each, Maybe, both, left, right, nil, cons, absent, present, Alike-push,
  Alike-push_bind, Alike-refl, Alike-<>, Alike-Agree,
}
use evalhub.Store.Sql.Filters.Binds.{FilterAlike, push_filter-Alike}
use evalhub.Store.Sql.Sorts.{SortPlan}
use evalhub.Store.Sql.Sorts.Binds.{
  SortAlike, PlansAlike, plan, plan_sorts-Agree, tiebreak-PlansAlike, push_keyset-Alike,
}
use evalhub.Store.Sql.Page.{
  push_selected, push_joins, push_condition, push_cursor, push_orders, newest_first, build_planned,
  build, render,
}

-- Two queries that differ at most in what they ask for by value: the record kind, the values that
-- columns are compared with, the names of metrics to sort by, where the last page stopped, and how
-- many hits a page has. What is expanded is no part of a statement.
pub data QueryAlike : Query → Query → Type 0 where
  query :
      (t u : RecordType) {f g : Option Filter} (version : VersionSelector) {s r : List Sort}
      {k l : Option Cursor} (m n : ℕ) (x y : List Expand)
      → Maybe FilterAlike f g
      → Each SortAlike s r
      → Maybe (λ _ _. Unit) k l
      → QueryAlike
          (record {
            record_type = t;
            filter = f;
            sort = s;
            limit = m;
            cursor = k;
            expand = x;
            version = version;
          })
          (record {
            record_type = u;
            filter = g;
            sort = r;
            limit = n;
            cursor = l;
            expand = y;
            version = version;
          })

push_selected-Alike :
    (i : ℕ) {ps qs : List SortPlan}
    → PlansAlike ps qs
    → Alike (push_selected i ps) (push_selected i qs)
unfolding push_selected
push_selected-Alike i nil = Alike-refl _
push_selected-Alike i (cons (plan e d ty m) hs) =
    Alike-<> (Alike-push _) (push_selected-Alike (suc i) hs)

push_joins-Alike :
    (i : ℕ) {ps qs : List SortPlan} → PlansAlike ps qs → Alike (push_joins i ps) (push_joins i qs)
unfolding push_joins
push_joins-Alike i nil = Alike-refl _
push_joins-Alike i (cons (plan e d ty absent) hs) =
    Alike-<> (Alike-refl _) (push_joins-Alike (suc i) hs)
push_joins-Alike i (cons (plan e d ty (present u)) hs) =
    Alike-<> (Alike-<> (Alike-push _) (Alike-<> (Alike-push_bind _ _) (Alike-push _)))
      (push_joins-Alike (suc i) hs)

push_orders-Alike :
    {ps qs : List SortPlan} → PlansAlike ps qs → Alike (push_orders ps) (push_orders qs)
unfolding push_orders
push_orders-Alike nil = Alike-refl _
push_orders-Alike (cons (plan e d ty m) hs) = Alike-<> (Alike-push _) (push_orders-Alike hs)

newest_first-Alike :
    {ps qs : List SortPlan} → PlansAlike ps qs → Alike (newest_first ps) (newest_first qs)
newest_first-Alike nil = Alike-refl _
newest_first-Alike (cons h hs) = Alike-refl _

module _ (c : Crates) (ns ms : List String) where
  push_condition-Alike :
      {f g : Option Filter}
      → Maybe FilterAlike f g
      → Alike (push_condition c ns f) (push_condition c ms g)
  unfolding push_condition
  push_condition-Alike absent = Alike-refl _
  push_condition-Alike (present h) = Alike-<> (Alike-push _) (push_filter-Alike c ns ms h)

  push_cursor-Alike :
      {ps qs : List SortPlan} {k l : Option Cursor}
      → PlansAlike ps qs
      → Maybe (λ _ _. Unit) k l
      → Alike (push_cursor c ps k) (push_cursor c qs l)
  unfolding push_cursor
  push_cursor-Alike h absent = Alike-refl _
  push_cursor-Alike h (present u) = push_keyset-Alike c _ _ h

  build_planned-Alike :
      {p q : Query} {ps qs : List SortPlan}
      → QueryAlike p q
      → PlansAlike ps qs
      → Alike (build_planned c p ns ps) (build_planned c q ms qs)
  unfolding build_planned
  build_planned-Alike (query t u version m n x y f s k) h = Alike-<> (Alike-push _) (
      Alike-<> (push_selected-Alike 0 h) (
        Alike-<> (Alike-push _) (
          Alike-<> (push_joins-Alike 0 h) (
            Alike-<> (Alike-push _) (
              Alike-<> (Alike-push_bind _ _) (
                Alike-<> (Alike-push _) (
                  Alike-<> (Alike-push_bind _ _) (
                    Alike-<> (Alike-push _) (
                      Alike-<> (Alike-refl _) (
                        Alike-<> (push_condition-Alike f) (
                          Alike-<> (push_cursor-Alike h k) (
                            Alike-<> (Alike-push _) (
                              Alike-<> (push_orders-Alike h) (
                                Alike-<> (newest_first-Alike h) (
                                  rw (tiebreak-PlansAlike h) (
                                    Alike-<> (Alike-push _) (
                                      Alike-<> (Alike-push _) (Alike-push_bind _ _))))))))))))))))))

  build-Alike : {p q : Query} → QueryAlike p q → Alike (build c p ns) (build c q ms)
  unfolding build
  build-Alike (query t u version m n x y f s k) =
      Alike-Agree (plan_sorts-Agree s)
        (λ ps qs h. build_planned-Alike (query t u version m n x y f s k) h)

  module _ (sql : Sql → String) (by_text : (s t : Sql) → SameText s t → sql s ≡ sql t) where
    text-Alike :
        (r s : Result Sql) (a b : String)
        → Alike r s
        → (r >>= λ p. ok (sql p)) ≡ ok a
        → (s >>= λ p. ok (sql p)) ≡ ok b
        → a ≡ b
    unfolding ◌>>=◌
    text-Alike (ok p) (ok q) a b (both t) g h = cc (by_text p q t, g, h)
    text-Alike (err e) s a b (left d r) g h = absurd (ground arith)
    text-Alike r (err e) a b (right q d) g h = absurd (ground arith)

    -- No value reaches the text of a statement: two queries that differ at most in the record kind,
    -- the values that columns are compared with, the names of metrics to sort by, the place where the
    -- last page stopped and the size of a page, from any two callers, have one text where both
    -- compile. The builder's text is assumed to have a placeholder for each value, whatever it is.
    pub render-QueryAlike :
        (p q : Query) (a b : String)
        → QueryAlike p q
        → render c sql p ns ≡ ok a
        → render c sql q ms ≡ ok b
        → a ≡ b
    unfolding render
    render-QueryAlike p q a b h g k = text-Alike _ _ a b (build-Alike h) g k
