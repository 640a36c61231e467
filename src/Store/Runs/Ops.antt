-- ===== src/Store/Runs/Ops.antt =====
-- crates/evalhub-store/src/runs.rs: the requests that change runs, in any order, and what they keep.
pub mod Life
use evalhub.Base.{ℕ, String, ◌≡◌, true, false, List, [], ◌∷◌}
use evalhub.Json.{Value}
use evalhub.Store.Db.{RunRow, Actor, Db, committed}
use evalhub.Store.Db.After.{After, After-committed}
use evalhub.Store.Db.Crates.{Crates}
use evalhub.Store.Records.{TombstoneRequest}
use evalhub.Store.Runs
use evalhub.Store.Runs.Write
use evalhub.Store.Runs.Moves.{
  Kind, writes, marks, deletes, Move, Moves, here, next, audited, marked, buried, written,
  put_inputs-Leads, tombstone-Leads, set_archived-Leads,
}
use evalhub.Store.Runs.Consistent.{IsConsistent, mark-IsConsistent, bury-IsConsistent}
use evalhub.Store.Runs.Consistent.Writes.{
  write_each-InWrite, set_runs_hash-IsConsistent, IsConsistent-InWrite,
}

-- A request that changes runs, with the time of its transaction.
pub data Op : Type 0 where
  put : (now : ℕ) (ns name run_id : String) (body : Value) (actor : Actor) → Op
  put_batch : (now : ℕ) (ns name : String) (runs : List Value) (actor : Actor) → Op
  archive unarchive : (now : ℕ) (ns name run_id : String) (actor : Actor) → Op
  tombstone : (now : ℕ) (ns name run_id : String) (request : TombstoneRequest) (actor : Actor) → Op

unfoldable pub kind_of : Op → Kind
kind_of (put now ns name run_id body actor) = writes
kind_of (put_batch now ns name runs actor) = writes
kind_of (archive now ns name run_id actor) = marks run_id true
kind_of (unarchive now ns name run_id actor) = marks run_id false
kind_of (tombstone now ns name run_id request actor) = deletes run_id

module _ (c : Crates) where
  -- The tables after one request: a transaction that fails leaves them as they were.
  unfoldable pub step : Op → Db → Db
  step (put now ns name run_id body actor) db =
      committed (Write.put c now ns name run_id body actor) db
  step (put_batch now ns name runs actor) db =
      committed (Write.put_batch c now ns name runs actor) db
  step (archive now ns name run_id actor) db =
      committed (Runs.archive c now ns name run_id actor) db
  step (unarchive now ns name run_id actor) db =
      committed (Runs.unarchive c now ns name run_id actor) db
  step (tombstone now ns name run_id request actor) db =
      committed (Runs.tombstone c now ns name run_id request actor) db

  unfoldable pub run_ops : List Op → Db → Db
  run_ops [] db = db
  run_ops (op ∷ ops) db = run_ops ops (step op db)

  pub step-Moves : (op : Op) (db : Db) → Moves c (kind_of op) db (step op db)
  unfolding step kind_of Write.put Write.put_batch Runs.archive Runs.unarchive
  step-Moves (put now ns name run_id body actor) db =
      After-committed (λ after. Moves c writes db after) _ db here
        (put_inputs-Leads c now ns name _ actor db)
  step-Moves (put_batch now ns name runs actor) db =
      After-committed (λ after. Moves c writes db after) _ db here
        (put_inputs-Leads c now ns name _ actor db)
  step-Moves (archive now ns name run_id actor) db =
      After-committed (λ after. Moves c (marks run_id true) db after) _ db here
        (set_archived-Leads c now ns name run_id _ actor db)
  step-Moves (unarchive now ns name run_id actor) db =
      After-committed (λ after. Moves c (marks run_id false) db after) _ db here
        (set_archived-Leads c now ns name run_id _ actor db)
  step-Moves (tombstone now ns name run_id request actor) db =
      After-committed (λ after. Moves c (deletes run_id) db after) _ db here
        (tombstone-Leads c now ns name run_id request actor db)

  -- What every move keeps, every sequence of requests keeps.
  pub run_ops-keeps :
      (P : Db → Type 0)
      → ((k : Kind) (db after : Db) → Move c db k after → P db → P after)
      → (ops : List Op) (db : Db) → P db
      → P (run_ops ops db)
  unfolding run_ops
  run_ops-keeps P keep [] db h = h
  run_ops-keeps P keep (op ∷ ops) db h =
      run_ops-keeps P keep ops (step op db) (all_moves (step-Moves op db) h)
    where
      all_moves : {k : Kind} {before after : Db} → Moves c k before after → P before → P after
      all_moves here k = k
      all_moves (next moves move) k = keep _ _ _ move (all_moves moves k)

  Move-IsConsistent :
      (k : Kind) (db after : Db) → Move c db k after → IsConsistent c db → IsConsistent c after
  Move-IsConsistent k db after (audited rows) h = record {
    unique = h.unique;
    bodies = h.bodies;
    refs = h.refs;
    hashed = h.hashed;
  }
  Move-IsConsistent k db after (marked now r i archived u e live) h =
      mark-IsConsistent c now r i archived db h
  Move-IsConsistent k db after (buried now r i request u e live) h =
      bury-IsConsistent c now r i request db h
  Move-IsConsistent k db after (written now r digest checked alive e) h =
      set_runs_hash-IsConsistent c r digest (Write.write_each now db.runs r checked db) e
        (write_each-InWrite c r now db.runs checked db alive (IsConsistent-InWrite c r db h))

  -- Whatever requests come, in whatever order and whether they succeed or fail: each run keeps its
  -- own row, has a body exactly when it is not deleted, attachments are counted for runs that stand
  -- and are not deleted, and the digest of every record is over all its runs.
  pub run_ops-IsConsistent :
      (ops : List Op) (db : Db) → IsConsistent c db → IsConsistent c (run_ops ops db)
  run_ops-IsConsistent = run_ops-keeps (IsConsistent c) Move-IsConsistent
