-- ===== src/Store/Tests/PageTests.antt =====
-- The theorems on pages at concrete inputs.
use evalhub.Base.{ℕ, inl, ◌∙◌, ◌≤◌, ◌≡◌, ◌≢◌, refl, ap, false, none, some, List, [], ◌∷◌, ◌++◌}
use evalhub.Base.Decimal.{decimal, digits_value}
use evalhub.Base.Decimal.Laws.{digits_value-decimal}
use evalhub.Json.{Float, Number}
use evalhub.Query.Ir.{Query, RecordType, VersionSelector}
use evalhub.Store.Db.{Result, ok}
use evalhub.Store.Db.Crates.{Crates}
use evalhub.Store.Sql.{Bound, Piece, Sql, sql, bind, ◌>>=◌, ◌<>◌, traverse}
use evalhub.Store.Sql.Sorts.{KeyType, key_value, plan_sorts}
use evalhub.Store.Sql.Page.{
  QueryRow, Cell, read_key, read_row, hit, cursor_of, take, page, build, build_planned, run,
}
use evalhub.Store.Sql.Page.Cuts.{Read, ReadsAs}
use evalhub.Store.Sql.Page.Limit.{limited, PageOf, run-PageOf}
use evalhub.Store.Sql.Page.Keys.{Fits, own_value, key_value-read_key}
use evalhub.Store.Sql.Page.Bounds.{run-length}
use evalhub.Store.Tests.Tables.{crates}

abbrev version : ℕ → QueryRow
version id = record {
  record_id = 1;
  version_id = id;
  ns = "lab";
  name = "card";
  seq = id;
  label = none;
  content_hash = 7;
  created_at = id;
  changed = [];
  badges = [];
  visibility = "public";
  body = none;
  title = none;
  cells = [];
}

abbrev versions : List QueryRow
versions = version 2 ∷ version 1 ∷ []

-- The last integer that a statement binds, here the bound behind its LIMIT.
abbrev after_piece : ℕ → Piece → ℕ
after_piece d (bind (Bound.integer m)) = m
after_piece d _ = d

last_integer : ℕ → Sql → ℕ
last_integer d [] = d
last_integer d (p ∷ ps) = last_integer (after_piece d p) ps

last_integer-limited : (d : ℕ) (s : Sql) (m : ℕ) → last_integer d (s ++ limited m) ≡ m
unfolding last_integer
last_integer-limited d [] m = refl
last_integer-limited d (p ∷ s) m = last_integer-limited (after_piece d p) s m

abbrev database : Sql → Result (List QueryRow)
database s = ok (take (last_integer 0 s) versions)

abbrev one_by_one : Query
one_by_one = record {
  record_type = RecordType.card;
  filter = none;
  sort = [];
  limit = 1;
  cursor = none;
  expand = [];
  version = VersionSelector.all;
}

abbrev read_version : ℕ → Read
read_version id = (hit (version id), [])

reads_one : (id : ℕ) → read_row crates [] (version id) ≡ ok (read_version id)
unfolding read_row ◌>>=◌
reads_one id = refl

reads : ReadsAs crates [] versions (read_version 2 ∷ read_version 1 ∷ [])
reads =
    ReadsAs.cons (version 2) (read_version 2) (reads_one 2)
      (ReadsAs.cons (version 1) (read_version 1) (reads_one 1) ReadsAs.nil)

planned : plan_sorts (one_by_one.sort) ≡ ok []
unfolding plan_sorts
planned = refl

-- The statement of the query, as far as its LIMIT and with it.
abbrev listing : Sql
listing =
    sql
      "SELECT r.id AS record_id, r.ns, r.name, r.visibility, v.version_id, v.seq, v.label, v.content_hash, v.created_at, v.changed, v.badges, v.body, v.title"
    ∷ sql " FROM records r JOIN versions v ON v.record_id = r.id"
    ∷ sql " WHERE r.type = "
    ∷ bind (Bound.text "card")
    ∷ sql " AND (r.visibility = 'public' OR r.ns = ANY("
    ∷ bind (Bound.texts [])
    ∷ sql ")) AND v.tombstoned_at IS NULL"
    ∷ sql " ORDER BY "
    ∷ sql "v.created_at DESC, "
    ∷ sql "v.version_id DESC"
    ∷ limited 2

built : build crates one_by_one [] ≡ ok listing
unfolding build build_planned ◌<>◌ ◌>>=◌
built = refl

answers : (s : Sql) (m : ℕ) → listing ≡ s ++ limited m → database listing ≡ ok (take m versions)
answers s m e = ap (λ l. ok (take l versions)) (ap (last_integer 0) e ∙ last_integer-limited 0 s m)

run-PageOf_example :
    PageOf 0 (read_version 2 ∷ read_version 1 ∷ []) (run crates database one_by_one [])
run-PageOf_example =
    run-PageOf crates database one_by_one [] [] 0 listing versions
      (read_version 2 ∷ read_version 1 ∷ []) planned (inl refl) built answers reads

run-length_example : (1 ≤ 1) × (some (cursor_of (read_version 2)) ≢ none → ◌≡◌ {A = ℕ} 1 1)
unfolding last_integer run build ◌<>◌ ◌>>=◌ build_planned page traverse read_row
run-length_example =
    run-length crates database one_by_one [] (hit (version 2) ∷ [])
      (some (cursor_of (read_version 2))) refl

abbrev exact : Number → Float
exact (Number.float x) = x
exact _ = record { negative = false; mantissa = 0; scaled_down = false; exponent = 0 }

-- Times as decimal numerals.
abbrev clock : Crates
clock = record crates {
  as_f64 = exact;
  to_rfc3339 = decimal;
  parse_from_rfc3339 = λ s. some (digits_value 0 s);
}

key_value-read_key_example :
    (read_key clock KeyType.timestamp (Cell.timestamp 12) >>= key_value clock KeyType.timestamp)
    ≡ own_value (Cell.timestamp 12)
key_value-read_key_example =
    key_value-read_key clock (λ x. refl) (λ t. ap some (digits_value-decimal t)) (Fits.timestamp 12)
