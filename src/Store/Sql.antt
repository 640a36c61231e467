-- ===== src/Store/Sql.antt =====
-- crates/evalhub-store/src/query_sql.rs: a statement under construction, `sqlx::QueryBuilder`. It is
-- the list of what was pushed; a function that pushes is what it pushes, or the error with which
-- the statement is given up.
pub mod Alike
pub mod Path
pub mod Filters
pub mod Sorts
pub mod Page
use evalhub.Base.{ℕ, suc, String, Bool, List, [], ◌∷◌, ◌++◌, Option, none, some}
use evalhub.Base.Text.{◌+++◌}
use evalhub.Base.Decimal.{decimal}
use evalhub.Json.{Value, Float}
use evalhub.Store.Db.{Result, ok, err, StoreError}

-- What `push_bind` is given.
pub data Bound : Type 0 where
  number : Float → Bound
  text : String → Bound
  boolean : Bool → Bound
  timestamp uuid integer : ℕ → Bound
  bytes : List ℕ → Bound
  numbers : List Float → Bound
  texts : List String → Bound
  booleans : List Bool → Bound
  json : Value → Bound

pub data Piece : Type 0 where
  sql : String → Piece
  bind : Bound → Piece

abbrev pub Sql : Type 0
Sql = List Piece

unfoldable pub push : String → Result Sql
push s = ok (sql s ∷ [])

unfoldable pub push_bind : Bound → Result Sql
push_bind b = ok (bind b ∷ [])

abbrev pub nothing : Result Sql
nothing = ok []

-- `?`
infixl 5 ◌>>=◌
unfoldable pub ◌>>=◌ {ℓ κ} : {A : Type ℓ} {B : Type κ} → Result A → (A → Result B) → Result B
ok a >>= f = f a
err e >>= f = err e

-- one push after another
infixr 6 ◌<>◌
unfoldable pub ◌<>◌ : Result Sql → Result Sql → Result Sql
unfolding ◌>>=◌
a <> b = a >>= λ s. b >>= λ t. ok (s ++ t)

abbrev pub unsupported {ℓ} : {A : Type ℓ} → Result A
unsupported = err StoreError.query_unsupported

-- `ok_or_else`
abbrev pub or_unsupported {ℓ} : {A : Type ℓ} → Option A → Result A
or_unsupported none = unsupported
or_unsupported (some a) = ok a

-- `iter().map(f).collect::<Result<Vec<_>, _>>()`
unfoldable pub traverse {ℓ κ} :
    {A : Type ℓ} {B : Type κ} → (A → Result B) → List A → Result (List B)
unfolding ◌>>=◌
traverse f [] = ok []
traverse f (x ∷ xs) = f x >>= λ y. traverse f xs >>= λ ys. ok (y ∷ ys)
