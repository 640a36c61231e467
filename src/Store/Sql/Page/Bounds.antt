-- ===== src/Store/Sql/Page/Bounds.antt =====
-- About crates/evalhub-store/src/query_sql.rs: how many hits a page has.
use evalhub.Base.{
  ℕ, zero, suc, ◌≤◌, ◌<◌, String, Bool, ◌≡◌, ◌≢◌, refl, sym, ap, ◌∙◌, inl, inr, false, Option, none,
  List, [], ◌∷◌, ltb, arith, Bool-cases, if◌then◌else◌,
}
use evalhub.Base.Lists.{length}
use evalhub.Query.Ir.{Query, Cursor}
use evalhub.Store.Db.{Result, ok, err}
use evalhub.Store.Db.Crates.{Crates}
use evalhub.Store.Sql.{Sql, ◌>>=◌, traverse}
use evalhub.Store.Sql.Sorts.{SortPlan, plan_sorts}
use evalhub.Store.Sql.Page.{
  QueryRow, QueryHit, read_row, take, hits_of, page, build, run, at_least_one,
}
use evalhub.Store.Sql.Page.Cuts.{Read, ltb-below}

-- A value of a chain of results comes of a value of its first.
bind-inv {ℓ κ} :
    {A : Type ℓ} {B : Type κ} (r : Result A) (f : A → Result B) (b : B)
    → (r >>= f) ≡ ok b
    → (a : A) × ((r ≡ ok a) × (f a ≡ ok b))
unfolding ◌>>=◌
bind-inv (ok a) f b h = (a, (refl, h))
bind-inv (err e) f b h = absurd (ground arith)

ok_inj {ℓ} : {A : Type ℓ} {a b : A} → ok a ≡ ok b → a ≡ b
ok_inj {a = a} h = ap (λ r. elim r [ ok x ↦ x | err e ↦ a ]) h

traverse-length :
    (f : QueryRow → Result Read) (rows : List QueryRow) (read : List Read)
    → traverse f rows ≡ ok read
    → length read ≡ length rows
unfolding traverse
traverse-length f [] read h = ap length (sym (ok_inj h))
traverse-length f (r ∷ rows) read h =
    let (x, (e, g)) = bind-inv (f r) _ read h in
    let (xs, (d, k)) = bind-inv (traverse f rows) _ read g in
    ap length (sym (ok_inj k)) ∙ ap suc (traverse-length f rows xs d)

length-take : (n : ℕ) (rows : List QueryRow) → length (take n rows) ≤ n
length-take zero rows = omega arith
length-take (suc n) [] = omega arith
length-take (suc n) (r ∷ rows) = omega (arith, length-take n rows)

length-take_more : (n : ℕ) (rows : List QueryRow) → n < length rows → length (take n rows) ≡ n
length-take_more zero rows h = refl
length-take_more (suc n) [] h = absurd (omega arith)
length-take_more (suc n) (r ∷ rows) h = ap suc (length-take_more n rows (omega arith))

length-hits_of : (read : List Read) → length (hits_of read) ≡ length read
length-hits_of [] = refl
length-hits_of (x ∷ read) = ap suc (length-hits_of read)

otherwise : (b : Bool) (k : Option Cursor) → b ≡ false → (if b then k else none) ≡ none
otherwise b k h = rw h refl

page-length :
    (c : Crates) (sorts : List SortPlan) (n : ℕ) (rows : List QueryRow) (hits : List QueryHit)
    (next : Option Cursor)
    → page c sorts n rows ≡ ok (hits, next)
    → (length hits ≤ n) × (next ≢ none → length hits ≡ n)
unfolding page
page-length c sorts n rows hits next h =
    let (read, (e, k)) = bind-inv (traverse (read_row c sorts) (take n rows)) _ (hits, next) h in
    let is = ok_inj k in
    let as_many : length hits ≡ length (take n rows) =
      ap (λ p. length p.0) (sym is) ∙ (length-hits_of read ∙ traverse-length _ _ read e) in
    let few : length hits ≤ n = omega (arith, as_many, length-take n rows) in
    elim (Bool-cases (ltb n (length rows))) [
      | inl more ↦ (few, λ u. as_many ∙ length-take_more n rows (ltb-below _ _ more))
      | inr whole ↦
          let gone : next ≡ none = sym (ap (λ p. p.1) is) ∙ otherwise _ _ whole in
          (few, λ u. absurd (u gone))
    ]

-- A page has at most as many hits as the query asks for (one at least), whatever the database
-- answers, and exactly so many where a cursor says that there is more.
pub run-length :
    (c : Crates) (fetch_all : Sql → Result (List QueryRow)) (q : Query) (namespaces : List String)
    (hits : List QueryHit) (next : Option Cursor)
    → run c fetch_all q namespaces ≡ ok (hits, next)
    → (length hits ≤ at_least_one q.limit) × (next ≢ none → length hits ≡ at_least_one q.limit)
unfolding run
run-length c fetch_all q namespaces hits next h =
    let (sorts, (e, g)) = bind-inv (plan_sorts q.sort) _ (hits, next) h in
    let (rows, (d, k)) = bind-inv (build c q namespaces >>= fetch_all) _ (hits, next) g in
    page-length c sorts _ rows hits next k
