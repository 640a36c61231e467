-- ===== src/Store/Tests/SqlTests.antt =====
-- The theorems on the text of statements at concrete inputs.
use evalhub.Base.{ℕ, suc, ap, String, ◌≡◌, refl, true, none, some, List, [], ◌∷◌}
use evalhub.Base.Decimal.{decimal}
use evalhub.Base.Text.{all_chars, ◌+++◌}
use evalhub.Json.{Value}
use evalhub.Query.Ir.{Query, RecordType, VersionSelector, Filter, Column, Op, Cursor, Dir}
use evalhub.Store.Db.{ok}
use evalhub.Store.Sql.{Bound, Sql, sql, bind, ◌>>=◌, ◌<>◌}
use evalhub.Store.Sql.Alike.{SameText, nil, absent, present}
use evalhub.Store.Sql.Path.{array_literal, generated}
use evalhub.Store.Sql.Path.Reading.{sql_text, array_of}
use evalhub.Store.Sql.Path.Literal.{array_of-array_literal}
use evalhub.Store.Sql.Filters.{push_operator}
use evalhub.Store.Sql.Filters.Binds.{FilterAlike, at}
use evalhub.Store.Sql.Sorts.{SortPlan, KeyType, key_value, push_keyset}
use evalhub.Store.Sql.Sorts.Keyset.{
  RowTests, LastDir, Bounds, Reads, Condition, holds, print, is_after,
}
use evalhub.Store.Sql.Sorts.Order.{push_keyset-is_after}
use evalhub.Store.Sql.Page.{render, build_planned}
use evalhub.Store.Sql.Page.Text.{query, render-QueryAlike}
use evalhub.Store.Tests.Tables.{crates}

-- The text of a statement, with the values as `$1`, `$2`, … in the order in which they were pushed.
text_from : ℕ → Sql → String
text_from n [] = ""
text_from n (sql s ∷ ps) = s +++ text_from n ps
text_from n (bind b ∷ ps) = "$" +++ decimal n +++ text_from (suc n) ps

-- Two statements that differ at most in their values have one text, from any number on.
text_from-SameText : (n : ℕ) {a b : Sql} → SameText a b → text_from n a ≡ text_from n b
unfolding text_from
text_from-SameText n SameText.nil = refl
text_from-SameText n (SameText.text s h) = ap (λ t. s +++ t) (text_from-SameText n h)
text_from-SameText n (SameText.value x y h) =
    ap (λ t. "$" +++ decimal n +++ t) (text_from-SameText (suc n) h)

abbrev titled : String → RecordType → ℕ → Query
titled s t limit = record {
  record_type = t;
  filter = some (
      Filter.cmp
        (record { column = Column.generated "title"; op = Op.eq; value = Value.string s }));
  sort = [];
  limit = limit;
  cursor = none;
  expand = [];
  version = VersionSelector.all;
}

abbrev statement : String
statement =
    "SELECT r.id AS record_id, r.ns, r.name, r.visibility, v.version_id, v.seq, v.label, v.content_hash, v.created_at, v.changed, v.badges, v.body, v.title FROM records r JOIN versions v ON v.record_id = r.id WHERE r.type = $1 AND (r.visibility = 'public' OR r.ns = ANY($2)) AND v.tombstoned_at IS NULL AND v.title = $3 ORDER BY v.created_at DESC, v.version_id DESC LIMIT $4"

render-titled : render crates (text_from 1) (titled "a'b" RecordType.card 20) [] ≡ ok statement
unfolding render ◌<>◌ ◌>>=◌ build_planned push_operator generated text_from decimal
render-titled = refl

render-other :
    render crates (text_from 1) (titled "$1" RecordType.eval 50) ("lab" ∷ []) ≡ ok statement
unfolding render ◌<>◌ ◌>>=◌ build_planned push_operator generated text_from decimal
render-other = refl

render-QueryAlike_example : statement ≡ statement
render-QueryAlike_example =
    render-QueryAlike crates [] ("lab" ∷ []) (text_from 1) (λ s t h. text_from-SameText 1 h)
      (titled "a'b" RecordType.card 20) (titled "$1" RecordType.eval 50) statement statement
      (query RecordType.card RecordType.eval VersionSelector.all 20 50 [] []
        (present (
          FilterAlike.cmp
            (at (Column.generated "title") Op.eq (Value.string "a'b") (Value.string "$1"))))
        nil absent)
      render-titled render-other

abbrev plans : List SortPlan
plans =
    record { expr = "v.title"; dir = Dir.asc; ty = KeyType.text; metric = none }
    ∷ record { expr = "v.env_git_dirty"; dir = Dir.desc; ty = KeyType.boolean; metric = none }
    ∷ []

abbrev stopped : Cursor
stopped = record { keys = Value.string "a" ∷ Value.bool true ∷ []; version_id = 3 }

abbrev bounds : Bounds
bounds =
    (record { expr = "v.title"; dir = Dir.asc; ty = KeyType.text; metric = none }, Bound.text "a")
    ∷ (
      record { expr = "v.env_git_dirty"; dir = Dir.desc; ty = KeyType.boolean; metric = none },
      Bound.boolean true,
    )
    ∷ []

last_is_desc : LastDir plans Dir.desc
last_is_desc =
    LastDir.last_key
      (record { expr = "v.title"; dir = Dir.asc; ty = KeyType.text; metric = none } ∷ [])
      (record { expr = "v.env_git_dirty"; dir = Dir.desc; ty = KeyType.boolean; metric = none })
      refl

push_keyset-is_after_example :
    (cond : Condition) × ((push_keyset crates plans stopped ≡ ok (sql " AND " ∷ print cond))
      × ((t : RowTests) → holds t cond ≡ is_after t bounds Dir.desc 3))
unfolding key_value ◌>>=◌
push_keyset-is_after_example =
    push_keyset-is_after crates stopped plans bounds Dir.desc last_is_desc refl (
      Reads.cons _ (Value.string "a") (Bound.text "a") refl
        (Reads.cons _ (Value.bool true) (Bound.boolean true) refl Reads.nil))

abbrev quoted : List String
quoted = "ext" ∷ "it's \"\\" ∷ []

array_of-array_literal_example :
    (text : String) × ((sql_text "'{\"ext\",\"it''s \\\"\\\\\"}'" ≡ some text)
      × (array_of text ≡ some quoted))
unfolding array_literal ◌>>=◌ all_chars
array_of-array_literal_example = array_of-array_literal quoted "'{\"ext\",\"it''s \\\"\\\\\"}'" refl
