-- ===== src/Store/UsedSet.antt =====
-- crates/evalhub-store/src/used_set.rs: which runs of an Eval a Card version used. A map or a set is
-- the list of its entries; `BTreeMap` and `BTreeSet` list their keys in ascending order.
pub mod Laws
use evalhub.Base.{
  ℕ, ◌+◌, String, Bool, true, false, not, ◌&&◌, ◌||◌, Option, none, some, List, [], ◌∷◌, ◌++◌, map,
  ltb, ◌==◌, if◌then◌else◌, str_eq, is_some, ◌>>=◌,
}
use evalhub.Base.Lists.{
  any, contains, is_empty, length, flat_map, flat_map_from, filter_map, opt_cons, find,
}
use evalhub.Base.Text.{◌+++◌, cmp, is_gt}
use evalhub.Base.Decimal.{decimal}
use evalhub.Json.{Value, get_key, as_str, as_array}
use evalhub.Schema.{ErrorEntry}
use evalhub.Schema.Codes.{run_unknown, run_not_in_used_set}
use evalhub.Core.Report.{push}
use evalhub.Core.Runs.{runs_hash}
use evalhub.Store.Rows.{select_where}
use evalhub.Store.Db.{RecordRow, RunRow, RunFingerprintRow, CardEvalRunRow, Db}
use evalhub.Store.Db.Crates.{Crates}
use evalhub.Store.Records.{visible_to}
use evalhub.Store.Runs.{find_run}
use evalhub.Store.Runs.Write.{hash_pair}

pub record UsesEval : Type 0 where
  pub eval_record_id : ℕ
  pub runs : Option (List (Option String))
  pub runs_path : Option String

unfoldable pub runs_of : Option Value → Option (List (Option String))
runs_of attrs = attrs >>= (λ a. get_key a "runs") >>= as_array >>= λ list. some (map as_str list)

abbrev pub UsedSet : Type 0
UsedSet = List (String × ℕ)

abbrev pub contains_id : List ℕ → ℕ → Bool
contains_id ids id = any (λ i. i == id) ids

-- The Evals that the writer may see, read again under their locks.
unfoldable pub lock_evals : Db → List ℕ → List String → List ℕ
lock_evals db records readable_ns =
    map (λ r. r.id)
      (select_where (λ r. contains_id records r.id && visible_to r.visibility r.ns readable_ns)
        db.records)

-- `BTreeSet::insert`
unfoldable pub insert_id : ℕ → List ℕ → List ℕ
insert_id id [] = id ∷ []
insert_id id (i ∷ ids) =
    if id == i then i ∷ ids else if ltb id i then id ∷ i ∷ ids else i ∷ insert_id id ids

unfoldable pub id_set : List ℕ → List ℕ
id_set [] = []
id_set (id ∷ ids) = insert_id id (id_set ids)

abbrev pub has_run : UsedSet → String → Bool
has_run set run_id = any (λ (r : String × ℕ). str_eq r.0 run_id) set

abbrev texts : Option (List (Option String)) → List String
texts none = []
texts (some runs) = filter_map (λ (r : Option String). r) runs

-- The runs that the edges name.
unfoldable pub named_runs : List UsesEval → List String
named_runs explicit = flat_map (λ u. texts u.runs) explicit

abbrev pub is_live_run : ℕ → RunRow → Bool
is_live_run record_id u =
    u.record_id == record_id && (not (is_some u.archived_at) && not (is_some u.tombstoned_at))

abbrev pub is_named_run : ℕ → List String → RunRow → Bool
is_named_run record_id named u = u.record_id == record_id && contains named u.run_id

unfoldable pub used_set : List RunRow → ℕ → List UsesEval → UsedSet
used_set runs record_id [] = map hash_pair (select_where (is_live_run record_id) runs)
used_set runs record_id (u ∷ us) =
    map hash_pair (select_where (is_named_run record_id (named_runs (u ∷ us))) runs)

abbrev unless_found : UsedSet → String → ℕ → Option String → List ErrorEntry
unless_found found path k none = push (path +++ ("/" +++ decimal k)) run_unknown
unless_found found path k (some run_id) =
    if has_run found run_id then [] else push (path +++ ("/" +++ decimal k)) run_unknown

abbrev reported : UsedSet → Option (List (Option String)) → Option String → List ErrorEntry
reported found (some runs) (some path) = flat_map_from 0 (unless_found found path) runs
reported found _ _ = []

-- The entries for named runs that have no row.
unfoldable pub unknown_runs : UsedSet → List UsesEval → List ErrorEntry
unknown_runs found explicit = flat_map (λ u. reported found u.runs u.runs_path) explicit

abbrev pub explicit_of : ℕ → List UsesEval → List UsesEval
explicit_of record_id uses =
    select_where (λ u. u.eval_record_id == record_id && is_some u.runs) uses

unfoldable pub fix_record : List RunRow → List UsesEval → ℕ → UsedSet × List ErrorEntry
fix_record runs uses record_id =
    let explicit = explicit_of record_id uses in
    let set = used_set runs record_id explicit in (set, unknown_runs set explicit)

abbrev pub eval_ids : List UsesEval → List ℕ
eval_ids uses = id_set (map (λ u. u.eval_record_id) uses)

-- The used set of every Eval among the edges, and the entries pushed.
unfoldable pub fix : List RunRow → List UsesEval → List (ℕ × UsedSet) × List ErrorEntry
fix runs uses = (
  map (λ id. (id, (fix_record runs uses id).0)) (eval_ids uses),
  flat_map (λ id. (fix_record runs uses id).1) (eval_ids uses),
)

pub record RunResultRef : Type 0 where
  pub index : ℕ
  pub eval_record_id : Option ℕ
  pub run_id : String

unfoldable pub run_id_path : ℕ → String
run_id_path index = "/run_results/" +++ (decimal index +++ "/run_id")

-- `BTreeMap::get`
unfoldable pub set_of : List (ℕ × UsedSet) → ℕ → Option UsedSet
set_of [] id = none
set_of ((i, set) ∷ sets) id = if i == id then some set else set_of sets id

abbrev pub in_set : Option UsedSet → String → Bool
in_set none run_id = false
in_set (some set) run_id = has_run set run_id

abbrev unresolved_entry : ℕ → Option ℕ → List ErrorEntry
unresolved_entry index none = push (run_id_path index) run_unknown
unresolved_entry index (some id) = []

abbrev outside_of : List (ℕ × UsedSet) → RunResultRef → Option ℕ → Bool
outside_of used item none = false
outside_of used item (some id) = not (in_set (set_of used id) item.run_id)

abbrev pub is_outside : List (ℕ × UsedSet) → RunResultRef → Bool
is_outside used item = outside_of used item item.eval_record_id

abbrev is_of : ℕ → Option ℕ → Bool
is_of id none = false
is_of id (some i) = i == id

-- An element outside its used set: of a run that the Card did not use, or of no run.
unfoldable pub outside_entry : List RunRow → ℕ → RunResultRef → List ErrorEntry
outside_entry runs record_id item =
    if is_some (find_run record_id item.run_id runs)
    then push (run_id_path item.index) run_not_in_used_set
    else push (run_id_path item.index) run_unknown

abbrev pub outside_entries : List RunRow → List RunResultRef → ℕ → List ErrorEntry
outside_entries runs outside record_id =
    flat_map (outside_entry runs record_id)
      (select_where (λ item. is_of record_id item.eval_record_id) outside)

unfoldable pub check_run_results :
    List RunRow → List RunResultRef → List (ℕ × UsedSet) → List ErrorEntry
check_run_results runs items used =
    let outside = select_where (is_outside used) items in
    flat_map (λ item. unresolved_entry item.index item.eval_record_id) items
    ++ flat_map (outside_entries runs outside)
        (id_set (filter_map (λ item. item.eval_record_id) outside))

abbrev same_used : ℕ → ℕ → String → CardEvalRunRow → Bool
same_used version record_id run_id row =
    row.card_version_id == version && row.eval_record_id == record_id && str_eq row.run_id run_id

abbrev used_row : ℕ → ℕ → String × ℕ → CardEvalRunRow
used_row version record_id (run_id, hash) = record {
  card_version_id = version;
  eval_record_id = record_id;
  run_id = run_id;
  content_hash = hash;
}

-- `ON CONFLICT … DO NOTHING`
unfoldable pub insert_used : ℕ → ℕ → UsedSet → List CardEvalRunRow → List CardEvalRunRow
insert_used version record_id [] rows = rows
insert_used version record_id (used ∷ set) rows = insert_used version record_id set (
    if any (same_used version record_id used.0) rows
    then rows
    else rows ++ used_row version record_id used ∷ [])

unfoldable pub insert : ℕ → List (ℕ × UsedSet) → List CardEvalRunRow → List CardEvalRunRow
insert version [] rows = rows
insert version ((record_id, set) ∷ used) rows =
    insert version used (insert_used version record_id set rows)

pub record UsedRun : Type 0 where
  pub run_id : String
  pub posted : ℕ
  pub current : ℕ
  pub harness : Option ℕ
  pub model : Option ℕ

abbrev fingerprint_of : Db → ℕ → String → String → Option ℕ
fingerprint_of db record_id run_id facet =
    find (λ f. f.record_id == record_id && str_eq f.run_id run_id && str_eq f.facet facet)
      db.run_fingerprints
    >>= λ f. some f.fingerprint

abbrev joined : Db → CardEvalRunRow → Option UsedRun
joined db row = find_run row.eval_record_id row.run_id db.runs >>= λ u. some (record {
  run_id = row.run_id;
  posted = row.content_hash;
  current = u.content_hash;
  harness = fingerprint_of db row.eval_record_id row.run_id "harness";
  model = fingerprint_of db row.eval_record_id row.run_id "model";
})

unfoldable pub insert_by_run_id : UsedRun → List UsedRun → List UsedRun
insert_by_run_id r [] = r ∷ []
insert_by_run_id r (s ∷ rs) =
    if is_gt (cmp r.run_id s.run_id) then s ∷ insert_by_run_id r rs else r ∷ s ∷ rs

unfoldable pub order_by_run_id : List UsedRun → List UsedRun
order_by_run_id [] = []
order_by_run_id (r ∷ rs) = insert_by_run_id r (order_by_run_id rs)

-- The recorded used set of one Card version for one Eval.
unfoldable pub read : Db → ℕ → ℕ → List UsedRun
read db version record_id = order_by_run_id (
    filter_map (joined db) (
      select_where (λ row. row.card_version_id == version && row.eval_record_id == record_id)
        db.card_eval_runs))

pub record Summary : Type 0 where
  pub runs_used : ℕ
  pub used_set_hash : ℕ
  pub posted_used_set_hash : ℕ
  pub changed_since_card : List String

abbrev pub current_pair : UsedRun → String × ℕ
current_pair r = (r.run_id, r.current)

abbrev pub posted_pair : UsedRun → String × ℕ
posted_pair r = (r.run_id, r.posted)

unfoldable pub changed_runs : List UsedRun → List String
changed_runs runs = map (λ r. r.run_id) (select_where (λ r. not (r.posted == r.current)) runs)

unfoldable pub summarise : Crates → List UsedRun → Option Summary
summarise c runs = runs_hash c.digest c.as_hex (map current_pair runs) >>= λ used_set_hash.
    runs_hash c.digest c.as_hex (map posted_pair runs) >>= λ posted_used_set_hash. some (record {
      runs_used = length runs;
      used_set_hash = used_set_hash;
      posted_used_set_hash = posted_used_set_hash;
      changed_since_card = changed_runs runs;
    })
