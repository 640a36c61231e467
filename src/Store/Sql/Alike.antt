-- ===== src/Store/Sql/Alike.antt =====
-- About crates/evalhub-store/src/query_sql.rs: statements that differ at most in what they bind.
use evalhub.Base.{String, Option, none, some, Bool, true, false, if◌then◌else◌, List, [], ◌∷◌, ◌++◌}
use evalhub.Store.Db.{Result, ok, err, StoreError}
use evalhub.Store.Sql.{Bound, Sql, sql, bind, push, push_bind, ◌>>=◌, ◌<>◌}

-- Two statements that differ at most in the values that are bound.
pub data SameText : Sql → Sql → Type 0 where
  nil : SameText [] []
  text : (s : String) {a b : Sql} → SameText a b → SameText (sql s ∷ a) (sql s ∷ b)
  value : (x y : Bound) {a b : Sql} → SameText a b → SameText (bind x ∷ a) (bind y ∷ b)

-- Two results that, where both are values, are related.
pub data Agree {A : Type 0} (R : A → A → Type 0) : Result A → Result A → Type 0 where
  both : {a b : A} → R a b → Agree R (ok a) (ok b)
  left : (e : StoreError) (r : Result A) → Agree R (err e) r
  right : (r : Result A) (e : StoreError) → Agree R r (err e)

abbrev pub Alike : Result Sql → Result Sql → Type 0
Alike = Agree SameText

-- Two lists whose elements are related, one by one.
pub data Each {A : Type 0} (R : A → A → Type 0) : List A → List A → Type 0 where
  nil : Each R [] []
  cons : {x y : A} {xs ys : List A} → R x y → Each R xs ys → Each R (x ∷ xs) (y ∷ ys)

-- Both are absent, or both are there and related.
pub data Maybe {A : Type 0} (R : A → A → Type 0) : Option A → Option A → Type 0 where
  absent : Maybe R none none
  present : {a b : A} → R a b → Maybe R (some a) (some b)

SameText-refl : (a : Sql) → SameText a a
SameText-refl [] = nil
SameText-refl (sql s ∷ a) = text s (SameText-refl a)
SameText-refl (bind x ∷ a) = value x x (SameText-refl a)

SameText-append : {a b s t : Sql} → SameText a b → SameText s t → SameText (a ++ s) (b ++ t)
SameText-append nil h = h
SameText-append (text w g) h = text w (SameText-append g h)
SameText-append (value x y g) h = value x y (SameText-append g h)

-- The rules by which what is pushed stays alike.
pub Alike-push : (s : String) → Alike (push s) (push s)
unfolding push
Alike-push s = both (text s nil)

pub Alike-push_bind : (x y : Bound) → Alike (push_bind x) (push_bind y)
unfolding push_bind
Alike-push_bind x y = both (value x y nil)

pub Alike-refl : (r : Result Sql) → Alike r r
Alike-refl (ok s) = both (SameText-refl s)
Alike-refl (err e) = left e _

Alike-append :
    (a b : Sql) (s t : Result Sql) → SameText a b → Alike s t → Alike (ok a <> s) (ok b <> t)
unfolding ◌<>◌
Alike-append a b s t g (both h) = both (SameText-append g h)
Alike-append a b s t g (left e r) = left e _
Alike-append a b s t g (right r e) = right _ e

pub Alike-<> : {a b s t : Result Sql} → Alike a b → Alike s t → Alike (a <> s) (b <> t)
unfolding ◌<>◌
Alike-<> (both g) h = Alike-append _ _ _ _ g h
Alike-<> (left e r) h = left e _
Alike-<> (right r e) h = right _ e

-- `?` on two values that need not agree, and on one that both sides share
pub Alike-any {ℓ κ} :
    {A : Type ℓ} {B : Type κ} (r : Result A) (s : Result B) {f : A → Result Sql}
    {g : B → Result Sql}
    → ((a : A) (b : B) → Alike (f a) (g b))
    → Alike (r >>= f) (s >>= g)
unfolding ◌>>=◌
Alike-any (ok a) (ok b) h = h a b
Alike-any (ok a) (err e) h = right _ e
Alike-any (err d) s h = left d _

pub Alike-Agree :
    {A : Type 0} {R : A → A → Type 0} {r s : Result A} {f g : A → Result Sql}
    → Agree R r s
    → ((a b : A) → R a b → Alike (f a) (g b))
    → Alike (r >>= f) (s >>= g)
unfolding ◌>>=◌
Alike-Agree (both h) k = k _ _ h
Alike-Agree (left e r) k = left e _
Alike-Agree (right r e) k = right _ e

pub Alike-shared {ℓ} :
    {A : Type ℓ} (r : Result A) {f g : A → Result Sql}
    → ((a : A) → Alike (f a) (g a))
    → Alike (r >>= f) (r >>= g)
unfolding ◌>>=◌
Alike-shared (ok a) h = h a
Alike-shared (err e) h = left e _

pub Alike-if :
    (b : Bool) (r : Result Sql) {a s : Result Sql}
    → Alike a s
    → Alike (if b then r else a) (if b then r else s)
Alike-if true r h = Alike-refl _
Alike-if false r h = h
