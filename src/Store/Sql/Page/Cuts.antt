-- ===== src/Store/Sql/Page/Cuts.antt =====
-- About crates/evalhub-store/src/query_sql.rs: a page of the rows, and where the next one starts.
use evalhub.Base.{
  ℕ, zero, suc, ◌≤◌, ◌<◌, ◌≡◌, refl, ap, true, none, some, List, [], ◌∷◌, ◌++◌, ltb, arith,
  if◌then◌else◌,
}
use evalhub.Base.Lists.{length}
use evalhub.Json.{Value}
use evalhub.Store.Db.{ok}
use evalhub.Store.Db.Crates.{Crates}
use evalhub.Store.Sql.{◌>>=◌, traverse}
use evalhub.Store.Sql.Sorts.{SortPlan}
use evalhub.Store.Sql.Page.{
  QueryRow, QueryHit, read_row, take, cursor_of, last_cursor, hits_of, page,
}

abbrev pub Read : Type 0
Read = QueryHit × List Value

-- Each row reads: none has a column of another type than its sort key's.
pub data ReadsAs (c : Crates) (sorts : List SortPlan) : List QueryRow → List Read → Type 0 where
  nil : ReadsAs c sorts [] []
  cons :
      (r : QueryRow) (x : Read) {rs : List QueryRow} {xs : List Read}
      → read_row c sorts r ≡ ok x
      → ReadsAs c sorts rs xs
      → ReadsAs c sorts (r ∷ rs) (x ∷ xs)

take-take {ℓ} : {A : Type ℓ} (n : ℕ) (xs : List A) → take n (take (suc n) xs) ≡ take n xs
take-take zero xs = refl
take-take (suc n) [] = refl
take-take (suc n) (x ∷ xs) = ap (λ ys. x ∷ ys) (take-take n xs)

pub take_all {ℓ} : {A : Type ℓ} (n : ℕ) (xs : List A) → length xs ≤ n → take n xs ≡ xs
take_all zero [] h = refl
take_all zero (x ∷ xs) h = absurd (omega arith)
take_all (suc n) [] h = refl
take_all (suc n) (x ∷ xs) h = ap (λ ys. x ∷ ys) (take_all n xs (omega arith))

length-take {ℓ} :
    {A : Type ℓ} (n : ℕ) (xs : List A) → ltb n (length (take (suc n) xs)) ≡ ltb n (length xs)
length-take n [] = refl
length-take zero (x ∷ xs) = ground arith
length-take (suc n) (x ∷ xs) = ground (arith, length-take n xs)

module _ (c : Crates) (sorts : List SortPlan) where
  pub ReadsAs-length :
      {rs : List QueryRow} {xs : List Read} → ReadsAs c sorts rs xs → length rs ≡ length xs
  ReadsAs-length nil = refl
  ReadsAs-length (cons r x e h) = ap suc (ReadsAs-length h)

  traverse-take :
      (n : ℕ) {rs : List QueryRow} {xs : List Read}
      → ReadsAs c sorts rs xs
      → traverse (read_row c sorts) (take n rs) ≡ ok (take n xs)
  unfolding traverse ◌>>=◌
  traverse-take zero h = refl
  traverse-take (suc n) nil = refl
  traverse-take (suc n) (cons r x e h) = rw (e, traverse-take n h) refl

  pub page-ReadsAs :
      (n : ℕ) {rs : List QueryRow} {xs : List Read}
      → ReadsAs c sorts rs xs
      → page c sorts n (take (suc n) rs)
        ≡ ok (hits_of (take n xs), if ltb n (length rs) then last_cursor (take n xs) else none)
  unfolding page ◌>>=◌
  page-ReadsAs n {rs} h = rw (take-take n rs, length-take n rs, traverse-take n h) refl

pub take_behind :
    (xs : List Read) (x : Read) (ys : List Read) (n : ℕ)
    → length xs ≡ n
    → take (suc n) (xs ++ x ∷ ys) ≡ xs ++ x ∷ []
take_behind [] x ys zero h = refl
take_behind [] x ys (suc n) h = absurd (omega arith)
take_behind (y ∷ xs) x ys zero h = absurd (omega arith)
take_behind (y ∷ xs) x ys (suc n) h = ap (λ l. y ∷ l) (take_behind xs x ys n (omega arith))

pub last_behind : (xs : List Read) (x : Read) → last_cursor (xs ++ x ∷ []) ≡ some (cursor_of x)
unfolding last_cursor
last_behind [] x = refl
last_behind (y ∷ []) x = refl
last_behind (y ∷ z ∷ xs) x = last_behind (z ∷ xs) x

pub ltb-below : (a b : ℕ) → ltb a b ≡ true → a < b
ltb-below a b h = ground arith
