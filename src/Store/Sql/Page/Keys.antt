-- ===== src/Store/Sql/Page/Keys.antt =====
-- About crates/evalhub-store/src/query_sql.rs: a sort key of the last hit, written into a cursor and
-- bound again for the next page.
use evalhub.Base.{ℕ, String, Bool, ◌≡◌, refl, some}
use evalhub.Json.{Value, Float}
use evalhub.Json
use evalhub.Store.Db.{Result, ok}
use evalhub.Store.Db.Crates.{Crates}
use evalhub.Store.Sql.{Bound, ◌>>=◌, unsupported}
use evalhub.Store.Sql.Sorts.{KeyType, key_value}
use evalhub.Store.Sql.Page.{Cell, null, read_key}

-- The column's own value; a NULL has none that can be bound.
abbrev pub own_value : Cell → Result Bound
own_value null = unsupported
own_value (Cell.number x) = ok (Bound.number x)
own_value (Cell.text s) = ok (Bound.text s)
own_value (Cell.boolean b) = ok (Bound.boolean b)
own_value (Cell.timestamp t) = ok (Bound.timestamp t)

-- The column has the type of its sort key.
pub data Fits : KeyType → Cell → Type 0 where
  absent : (ty : KeyType) → Fits ty null
  number : (x : Float) → Fits KeyType.number (Cell.number x)
  text : (s : String) → Fits KeyType.text (Cell.text s)
  boolean : (b : Bool) → Fits KeyType.boolean (Cell.boolean b)
  timestamp : (t : ℕ) → Fits KeyType.timestamp (Cell.timestamp t)

module _ (c : Crates) (doubles : (x : Float) → c.as_f64 (Json.float x) ≡ x)
    (times : (t : ℕ) → c.parse_from_rfc3339 (c.to_rfc3339 t) ≡ some t) where
  -- A column of its key's type that is read for a cursor binds as its own value, and a NULL is
  -- refused: the cursor carries a null for it, which no type of key takes. Doubles and times are
  -- assumed to read back as they were written.
  pub key_value-read_key :
      {ty : KeyType} {cell : Cell}
      → Fits ty cell
      → (read_key c ty cell >>= key_value c ty) ≡ own_value cell
  unfolding read_key key_value ◌>>=◌
  key_value-read_key (absent KeyType.number) = refl
  key_value-read_key (absent KeyType.text) = refl
  key_value-read_key (absent KeyType.boolean) = refl
  key_value-read_key (absent KeyType.timestamp) = refl
  key_value-read_key (number x) = rw (doubles x) refl
  key_value-read_key (text s) = refl
  key_value-read_key (boolean b) = refl
  key_value-read_key (timestamp t) = rw (times t) refl
