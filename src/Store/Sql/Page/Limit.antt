-- ===== src/Store/Sql/Page/Limit.antt =====
-- About crates/evalhub-store/src/query_sql.rs: the limit of the statement against the page that is
-- made of its answer.
use evalhub.Base.{
  ℕ, suc, ◌+◌, ◌≤◌, String, ◌≡◌, refl, sym, ap, ◌∙◌, true, false, Option, none, some, List, [], ◌∷◌,
  ◌++◌, ◌⊎◌, zero, inl, inr, ltb, arith, if◌then◌else◌,
}
use mathlib.Core.List.{append_assoc}
use mathlib.Core.Path.{subst}
use evalhub.Base.Lists.{length}
use evalhub.Query.Ir.{Query, Cursor}
use evalhub.Store.Db.{Result, ok, err, StoreError}
use evalhub.Store.Db.Crates.{Crates}
use evalhub.Store.Sql.{Bound, Sql, sql, bind, push, push_bind, ◌>>=◌, ◌<>◌}
use evalhub.Store.Sql.Sorts.{SortPlan, plan_sorts}
use evalhub.Store.Sql.Page.{
  QueryRow, QueryHit, take, cursor_of, last_cursor, hits_of, page, build_planned, build, run,
  at_least_one,
}
use evalhub.Store.Sql.Page.Cuts.{
  Read, ReadsAs, take_all, ReadsAs-length, page-ReadsAs, take_behind, last_behind,
}

-- How a statement bounds the number of its rows.
abbrev pub limited : ℕ → Sql
limited m = sql " LIMIT " ∷ bind (Bound.integer m) ∷ []

-- What is pushed, if anything is, ends with this.
data Ends (end : Sql) : Result Sql → Type 0 where
  failed : (e : StoreError) → Ends end (err e)
  ended : (s : Sql) → Ends end (ok (s ++ end))

Ends-<> : {end : Sql} (r : Result Sql) {s : Result Sql} → Ends end s → Ends end (r <> s)
unfolding ◌<>◌ ◌>>=◌
Ends-<> (err e) h = failed e
Ends-<> (ok s) (failed e) = failed e
Ends-<> {end} (ok s) (ended t) =
    subst (λ l. Ends end (ok l)) (append_assoc s t end) (ended (s ++ t))

Ends-ok : {end s : Sql} {r : Result Sql} → r ≡ ok s → Ends end r → (t : Sql) × (s ≡ t ++ end)
Ends-ok {s = s} h (failed e) = absurd (ground arith)
Ends-ok {s = s} h (ended t) = (t, ground arith)

pushed_limit : (m : ℕ) → Ends (limited m) (push " LIMIT " <> push_bind (Bound.integer m))
unfolding ◌<>◌ ◌>>=◌ push push_bind
pushed_limit m = ended []

build_planned-Ends :
    (c : Crates) (q : Query) (ns : List String) (sorts : List SortPlan)
    → Ends (limited (at_least_one q.limit + 1)) (build_planned c q ns sorts)
unfolding build_planned push push_bind
build_planned-Ends c q ns sorts = Ends-<> _ (
    Ends-<> _ (
      Ends-<> _ (
        Ends-<> _ (
          Ends-<> _ (
            Ends-<> _ (
              Ends-<> _ (
                Ends-<> _ (
                  Ends-<> _ (
                    Ends-<> _ (
                      Ends-<> _ (
                        Ends-<> _ (
                          Ends-<> _ (Ends-<> _ (Ends-<> _ (Ends-<> _ (pushed_limit _))))))))))))))))

bind-ok {ℓ κ} :
    {A : Type ℓ} {B : Type κ} {r : Result A} {a : A} (f : A → Result B) → r ≡ ok a → (r >>= f) ≡ f a
unfolding ◌>>=◌
bind-ok f h = rw h refl

-- The page of a query with room for one hit more than `n`, out of all that its rows read as: all of
-- them and no cursor where there is room, and otherwise the first of them with a cursor at the last
-- of these.
pub data PageOf (n : ℕ) : List Read → Result (List QueryHit × Option Cursor) → Type 0 where
  whole : (xs : List Read) → length xs ≤ suc n → PageOf n xs (ok (hits_of xs, none))
  first :
      (ys : List Read) (y z : Read) (zs : List Read)
      → length ys ≡ n
      → PageOf n
          (ys ++ y ∷ z ∷ zs)
          (ok (hits_of (ys ++ y ∷ []), some (record { keys = y.1; version_id = y.0.version_id })))

-- The number of hits that a limit leaves room for, less one: a limit of 0 counts as 1.
abbrev pub Room : (limit n : ℕ) → Type 0
Room limit n = (limit ≡ suc n) ⊎ ((limit ≡ 0) × (n ≡ 0))

at_least_one-Room : (limit n : ℕ) → Room limit n → at_least_one limit ≡ suc n
at_least_one-Room limit n (inl e) = rw e refl
at_least_one-Room limit n (inr (e, z)) = rw (e, z) refl

cut_at :
    (n : ℕ) (xs : List Read)
    → (length xs ≤ suc n)
      ⊎ ((ys : List Read) × (y : Read) × (z : Read) × (zs : List Read) × ((xs ≡ ys ++ y ∷ z ∷ zs)
            × (length ys ≡ n)))
cut_at n [] = inl (omega arith)
cut_at n (x ∷ []) = inl (omega arith)
cut_at zero (x ∷ z ∷ xs) = inr ([], x, z, xs, (refl, refl))
cut_at (suc n) (x ∷ z ∷ xs) = elim (cut_at n (z ∷ xs)) [
  | inl l ↦ inl (omega arith)
  | inr (ys, y, w, zs, (e, is)) ↦ inr (x ∷ ys, y, w, zs, (ap (λ l. x ∷ l) e, ap suc is))
]

length-cut :
    (ys : List Read) (y z : Read) (zs : List Read)
    → length (ys ++ y ∷ z ∷ zs) ≡ length ys + suc (suc (length zs))
length-cut [] y z zs = omega arith
length-cut (x ∷ ys) y z zs = omega (arith, length-cut ys y z zs)

page-PageOf :
    (n : ℕ) (xs : List Read) (many : ℕ)
    → many ≡ length xs
    → PageOf n xs (
        ok (
          hits_of (take (suc n) xs),
          if ltb (suc n) many then last_cursor (take (suc n) xs) else none,
        ))
unfolding cursor_of
page-PageOf n xs many e = elim (cut_at n xs) [
  | inl l ↦
      let room : ltb (suc n) many ≡ false = ground arith in
      rw (room, take_all (suc n) xs l) (whole xs l)
  | inr (ys, y, z, zs, (is, at)) ↦
      let more : ltb (suc n) many ≡ true = ground (arith, length-cut ys y z zs) in
      rw (more, is, take_behind ys y (z ∷ zs) n at, last_behind ys y) (first ys y z zs at)
]

module _ (c : Crates) (fetch_all : Sql → Result (List QueryRow)) (q : Query) (ns : List String)
    (sorts : List SortPlan) (n : ℕ) (statement : Sql) (rows : List QueryRow)
    (read : List Read) where
  -- Where the database answers the statement of a query with the first of some rows, as many as the
  -- bound behind the statement's LIMIT says, and each row reads, the page is `PageOf` them: all of
  -- them and no cursor where the query's limit, 0 counting as 1, has room; else as many as the limit,
  -- with the cursor of the last of these.
  pub run-PageOf :
      plan_sorts q.sort ≡ ok sorts
      → Room q.limit n
      → build c q ns ≡ ok statement
      → ((s : Sql) (m : ℕ) → statement ≡ s ++ limited m → fetch_all statement ≡ ok (take m rows))
      → ReadsAs c sorts rows read
      → PageOf n read (run c fetch_all q ns)
  unfolding run build
  run-PageOf planned room built answers reads =
      let size = at_least_one-Room q.limit n room in
      let (s, is) =
        Ends-ok (sym (bind-ok (build_planned c q ns) planned) ∙ built)
          (build_planned-Ends c q ns sorts) in
      let bounded : statement ≡ s ++ limited (suc (suc n)) =
        is ∙ ap (λ m. s ++ limited m) (omega (arith, size)) in
      let fetched = bind-ok fetch_all built ∙ answers s (suc (suc n)) bounded in
      subst (PageOf n read)
        (sym (
          bind-ok _ planned
          ∙ (bind-ok _ fetched
              ∙ (ap (λ m. page c sorts m (take (suc (suc n)) rows)) size
                  ∙ page-ReadsAs c sorts (suc n) reads))))
        (page-PageOf n read (length rows) (ReadsAs-length c sorts reads))
