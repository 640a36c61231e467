-- ===== src/Store/Sql/Sorts/Meaning.antt =====
-- About crates/evalhub-store/src/query_sql.rs: a list of clauses, and a row comparison, say that a row
-- is after the cursor.
use evalhub.Base.{ℕ, Bool, true, ◌&&◌, ◌||◌, ◌≡◌, refl, [], ◌∷◌, ◌++◌, arith}
use mathlib.Core.Path.{subst}
use mathlib.Core.List.{append_assoc, append-nil}
use evalhub.Base.Lists.{any}
use evalhub.Query.Ir.{Dir}
use evalhub.Store.Sql.{Bound}
use evalhub.Store.Sql.Sorts.{SortPlan, same_dir, all_in}
use evalhub.Store.Sql.Sorts.Keyset.{
  RowTests, side_of, Bounds, plans_of, is_after, all_same, clause_holds, row_holds, clauses_of,
  last_clause,
}

same_dir-eq : (a b : Dir) → same_dir a b ≡ true → a ≡ b
same_dir-eq Dir.asc Dir.asc h = refl
same_dir-eq Dir.asc Dir.desc h = ground arith
same_dir-eq Dir.desc Dir.asc h = ground arith
same_dir-eq Dir.desc Dir.desc h = refl

module _ (t : RowTests) where
  all_same-append :
      (es : Bounds) (p : SortPlan) (b : Bound)
      → all_same t (es ++ (p, b) ∷ []) ≡ (all_same t es && t.same p.expr b)
  all_same-append [] p b = ground arith
  all_same-append ((q, v) ∷ es) p b = ground (arith, all_same-append es p b)

  and-after : (e s b r : Bool) → ((e && b) || ((e && s) && r)) ≡ (e && (b || (s && r)))
  and-after e s b r = ground arith

  pub clauses-is_after :
      (es bs : Bounds) (d : Dir) (id : ℕ)
      → any (clause_holds t) (clauses_of es bs ++ last_clause (es ++ bs) (side_of d) id ∷ [])
        ≡ (all_same t es && is_after t bs d id)
  unfolding is_after
  clauses-is_after es [] d id = ground (arith, append-nil es)
  clauses-is_after es ((p, b) ∷ bs) d id =
      let more =
        subst
          (λ l.
            any (clause_holds t)
              (clauses_of (es ++ (p, b) ∷ []) bs ++ last_clause l (side_of d) id ∷ [])
            ≡ (all_same t (es ++ (p, b) ∷ []) && is_after t bs d id))
          (append_assoc es ((p, b) ∷ []) bs) (clauses-is_after (es ++ (p, b) ∷ []) bs d id) in
      ground (arith, more, all_same-append es p b)

  pub row-is_after :
      (bs : Bounds) (d : Dir) (id : ℕ)
      → all_in d (plans_of bs) ≡ true
      → row_holds t bs (side_of d) id ≡ is_after t bs d id
  unfolding is_after
  row-is_after [] d id h = refl
  row-is_after ((p, b) ∷ bs) d id h = ground (arith, same_dir-eq p.dir d, row-is_after bs d id)
