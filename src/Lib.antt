-- ===== src/Lib.antt =====
-- A verification library of the EvalHub server: the Rust workspace under `crates/`.
--
-- EvalHub stores Cards (results of evaluations) and Evals (with their runs) and answers queries
-- over them. A body comes in as JSON; `crates/evalhub-core` decides whether it is accepted,
-- hashes it and awards badges; `crates/evalhub-query` turns the JSON of a query into a tree of
-- resolved columns, which `crates/evalhub-store` compiles to SQL; `crates/evalhub-server`
-- authenticates the caller and signs the cursors of pages; `crates/evalhub-schema` has the types
-- and the error contract that they share.
--
-- The modules, and the code that each models:
--
-- - `Base`: shared names, Boolean tests, lists by native numbers, texts as walks over
--   characters, decimal numerals.
-- - `Json`: `serde_json::Value` with its accessors. A finite double is a mantissa times or over
--   a power of two.
-- - `Schema`, `Schema/Codes`: crates/evalhub-schema/src/lib.rs and error.rs, the record kinds,
--   their identifiers, the error codes and entries. An entry's `hint` is prose and is left out.
-- - `Core/Ids`, `Core/Report`, `Core/Numbers`, `Core/Attachments`, `Core/Validate` with `Record`
--   and `Run`: crates/evalhub-core/src/validate.rs, each function under its own name; code that
--   pushes onto `out` returns the entries that it pushes. `Core/Validate/Accepted` and
--   `Core/Validate/RunTotal` state the rules without the code.
-- - `Core/Facets`: crates/evalhub-core/src/fingerprint.rs and `materialise` of run.rs.
--   `Core/Runs`: the hashes of run.rs. `Core/Badge`: badge.rs. `Core/Registry`: registry.rs.
-- - `Query/Ir`: crates/evalhub-query/src/ir.rs. `Query/Grammar`: grammar.rs, the lowering of a
--   filter's JSON. `Query/Table`: the path table of typecheck.rs. `Query/Check` with `Terms`,
--   `Filters` and `Sorts`: its checks and `compile`, `compile_runs`; `Query/Check/Typing` states
--   as relations what a filter means.
-- - `Server/Auth`: the scopes of crates/evalhub-store/src/auth.rs and the callers of
--   crates/evalhub-server/src/auth.rs. `Server/Cursor`: the signer of the same file.
--   `Server/Errors`: crates/evalhub-server/src/error.rs. `Server/Withhold`: `withhold` of
--   crates/evalhub-server/src/api/relations.rs, with the hidden targets and Evals of
--   crates/evalhub-store/src/relations.rs.
-- - `Store/ExtPaths`: the walk over an extension schema in crates/evalhub-store/src/registry.rs.
-- - `Store/Db`, `Store/Rows`: the tables of crates/evalhub-store/migrations, what a statement
--   does to one, and transactions; `append` of audit.rs and the errors of error.rs.
--   `Store/Db/Crates` has what the store takes from other crates, and `Store/Db/After` the rules
--   by which a transaction is reasoned about.
-- - `Store/Records` with `Reads`, `CardRuns`, `Posts` and `Ingest`:
--   crates/evalhub-store/src/records.rs, with `visible_to` of relations.rs and `set_badges` of
--   registry.rs. `Store/Records/Ops` has the requests in any order, `Store/Records/Moves` the
--   statements on versions that they are made of, `Store/Records/Wellformed` what the versions
--   always satisfy.
-- - `Store/Runs` with `Prepare`, `Checks` and `Write`: crates/evalhub-store/src/runs.rs.
--   `Store/Runs/Ops` has the requests in any order, `Store/Runs/Moves` the statements that they
--   are made of, `Store/Runs/Consistent` what the tables always satisfy, `Store/Runs/Shown` what
--   a reader is shown of an archived run, `Store/Runs/Ops/Life` the abstract life of one run.
-- - `Store/UsedSet`: crates/evalhub-store/src/used_set.rs. `Store/Relations`: relations.rs, the
--   edges that are added after a version and a target as a reader sees it; the reads that `add`
--   makes before its transaction are of an argument `earlier`.
-- - `Store/Sql` with `Path`, `Filters`, `Sorts` and `Page`:
--   crates/evalhub-store/src/query_sql.rs. `Store/Sql/Path/Reading` says how the database reads
--   the literal of a path, `Store/Sql/Sorts/Keyset` what the condition of a cursor says of a
--   row, `Store/Sql/Page/Limit` what the limit of the statement makes of a page,
--   `Store/Sql/Alike` what it is for two statements to differ in their values only.
--
-- A check of the query crate returns an optional node and the entries that it pushed; a filter
-- that holds a list of itself is two data types. No model of the code needs fuel: every loop
-- follows the value, the list or the text that it reads. A `u32` or `u64` is a native number
-- with the bound or the wrap written where the code relies on it: the sum of the counts is taken
-- modulo 2^64, a sequence number is below 2^32. A UUID is its 128-bit value.
--
-- A statement under construction is the list of what was pushed onto `sqlx::QueryBuilder`, texts
-- and bound values apart; a function that pushes is what it pushes, or the error with which the
-- statement is given up. What a statement answers is the database's: an argument where a page is
-- made of it. A column of a row may be NULL where a key is read from it, not where a condition
-- compares it.
--
-- A table is the list of its rows, and the database a record of tables. A transaction is a
-- function from the database to a result with the next one; one that fails carries no database,
-- since it is rolled back. The requests on one record wait for each other at `FOR UPDATE`, so
-- any interleaving of transactions on it is a sequence of whole ones. The time of a transaction
-- and the ids that it draws are arguments. Columns that hold a name in text keep it as text. A
-- digest and an instant are numbers. `BTreeMap` and `BTreeSet` are lists of their entries. The
-- sequence number of a version is taken without the bound of an `integer` column, and the unique
-- keys of the side tables, which a validated body does not break, are not checked again.
--
-- Parameters stand for code outside the repository: the compiled JSON Schema documents
-- (`Validators`), the derived builder of `dsl-kit` (`build`, which gives a tree or a number of
-- diagnostics; `Speaks` says that a refusal has at least one), the exclusion table that is read
-- from the generated schema, the canonical hash and the canonical form read again, hexadecimal
-- and UUID texts, RFC 3339 times both ways, the conversion of numbers to doubles, the equality
-- of JSON values, the text that `sqlx::QueryBuilder` makes of what was pushed, HMAC-SHA256 and
-- base64url. The rule that awards badges to a version is an argument of `create_or_append`, as
-- in the code.
--
-- Not modelled: the building of the path tables from the generated schemas (`from_schema`,
-- `for_runs`), the listings with their paging and the projection of runs, the traversal of
-- relations and the comparison view, users, tokens and the registry's entries, the object store
-- and the data migrations, the SQL that a query over runs becomes, and the HTTP handlers.
pub mod Base
pub mod Json
pub mod Schema
pub mod Core
pub mod Query
pub mod Server
pub mod Store
