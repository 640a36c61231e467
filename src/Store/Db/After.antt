-- ===== src/Store/Db/After.antt =====
-- What holds after a transaction that did not fail, step by step.
use mathlib.Core.Path.{subst}
use evalhub.Base.{◌≡◌, ap, Option, some, [], ◌∷◌, ◌++◌, inl, inr, arith, Option-cases}
use evalhub.Store.Db.{
  AuditRow, Db, StoreError, Result, ok, err, Tx, ◌>>=◌, ◌>>◌, pure, raise, fetch, execute,
  committed, append,
}

pub data After {A : Type 0} (Q : A → Db → Type 0) : Result (A × Db) → Type 0 where
  returned : (a : A) (after : Db) → Q a after → After Q (ok (a, after))
  failed : (e : StoreError) → After Q (err e)

module _ {A : Type 0} where
  pub After-ok :
      {Q : A → Db → Type 0} (r : Result (A × Db)) (a : A) (after : Db)
      → After Q r
      → r ≡ ok (a, after)
      → Q a after
  After-ok {Q} (ok (b, mid)) a after (returned _ _ h) is =
      let same : Path (A × Db) (b, mid) (a, after) = ground arith in
      subst (λ (x : A × Db). Q x.0 x.1) same h
  After-ok (err e) a after h is = absurd (ground arith)

  pub After-weaken :
      {P Q : A → Db → Type 0} {r : Result (A × Db)}
      → After P r
      → ((a : A) (after : Db) → P a after → Q a after)
      → After Q r
  After-weaken (returned a after h) f = returned a after (f a after h)
  After-weaken (failed e) f = failed e

  pub After-pure : {Q : A → Db → Type 0} (a : A) (db : Db) → Q a db → After Q (pure a db)
  unfolding pure
  After-pure a db h = returned a db h

  pub After-raise : {Q : A → Db → Type 0} (e : StoreError) (db : Db) → After Q (raise e db)
  unfolding raise
  After-raise e db = failed e

  pub After-fetch :
      {Q : A → Db → Type 0} (f : Db → Option A) (e : StoreError) (db : Db)
      → ((a : A) → f db ≡ some a → Q a db)
      → After Q (fetch f e db)
  unfolding fetch
  After-fetch f e db h = elim (Option-cases (f db)) [
    | inl gone ↦ rw gone (failed e)
    | inr (a, is) ↦ rw is (returned a db (h a is))
  ]

  pub After-committed :
      (P : Db → Type 0) (m : Tx A) (db : Db)
      → P db
      → After (λ _ after. P after) (m db)
      → P (committed m db)
  unfolding committed
  After-committed P m db before h = ended (m db) h
    where
      ended :
          (r : Result (A × Db))
          → After (λ _ after. P after) r
          → P (elim r [ ok (a, after) ↦ after | err e ↦ db ])
      ended (ok (a, after)) (returned _ _ k) = k
      ended (err e) k = before

pub After-execute :
    {Q : Unit {0} → Db → Type 0} (f : Db → Db) (db : Db) → Q tt (f db) → After Q (execute f db)
unfolding execute
After-execute f db h = returned tt (f db) h

pub After-append :
    {Q : Unit {0} → Db → Type 0} (row : AuditRow) (db : Db)
    → Q tt (record db { audit = db.audit ++ row ∷ [] })
    → After Q (append row db)
unfolding append execute
After-append row db h = returned tt (record db { audit = db.audit ++ row ∷ [] }) h

module _ {A B : Type 0} where
  pub After->>= :
      {P : A → Db → Type 0} {Q : B → Db → Type 0} (m : Tx A) (f : A → Tx B) (db : Db)
      → After P (m db)
      → ((a : A) (after : Db) → P a after → After Q (f a after))
      → After Q ((m >>= f) db)
  unfolding ◌>>=◌
  After->>= {P} {Q} m f db first later = go (m db) first
    where
      go :
          (r : Result (A × Db))
          → After P r
          → After Q (elim r [ ok (a, after) ↦ f a after | err e ↦ err e ])
      go (ok (a, after)) (returned _ _ h) = later a after h
      go (err e) h = failed e

  pub After->> :
      {P : A → Db → Type 0} {Q : B → Db → Type 0} (m : Tx A) (k : Tx B) (db : Db)
      → After P (m db)
      → ((a : A) (after : Db) → P a after → After Q (k after))
      → After Q ((m >> k) db)
  unfolding ◌>>◌
  After->> m k db first later = After->>= m (λ _. k) db first later

  -- A step that succeeds hands on.
  pub >>=-ok :
      (m : Tx A) (f : A → Tx B) (db after : Db) (a : A)
      → m db ≡ ok (a, after)
      → (m >>= f) db ≡ f a after
  unfolding ◌>>=◌
  >>=-ok m f db after a e = ap go e
    where
      go : Result (A × Db) → Result (B × Db)
      go r = elim r [ ok (x, mid) ↦ f x mid | err x ↦ err x ]
