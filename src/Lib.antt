-- ===== src/Lib.antt =====
-- A verification library of yt-media-tools: its query language yt-sql, the metadata cache of Discover,
-- and the profiles and the queue of the downloader. All paths are from the repository's root.
--
-- A query is parsed and resolved to a WHERE predicate (yt_media_tools/query_model.py). The optimiser
-- rewrites it, the planner infers from it which items have to be acquired at all and which AND terms
-- can be decided on an enumeration, and the evaluator then accepts or rejects each record with SQL's
-- three truth values. Before any of that, startup looks for the cache file, and migrates an older one.
--
-- Query.Value, Query.Model: values, fields, literals and predicates (query_model.py, query_values.py).
--   A date is its ordinal and a datetime its microseconds; a comparison that raises TypeError is `none`.
-- Query.Like, Query.Evaluator: LIKE and three-valued evaluation (query_evaluator.py: like_matches,
--   _evaluate_boolean_binary, _evaluate_boolean_expression). `Runtime` holds what the code uses of
--   Python: str.casefold, re.search and the equality of characters that ignores case.
-- Sorting: Python's stable list.sort, by a three-way comparison.
-- Query.Relations, Query.Indexes, Query.Joins: cells, which may be lists, and conditions over two relations; the SEMI,
--   ANTI, INNER and LEFT joins of materialised relations with the hash index of their equalities
--   (query_evaluator.py: _equality_join_key_fields to _apply_row_producing_join).
-- Query.Results: WHERE, ORDER BY, DISTINCT, OFFSET, LIMIT and POSITION() of a query without aggregates
--   (_apply_query_body, _slice_final_result). `SortRuntime` holds str and what a failed sort leaves.
-- Query.Limits: plan_limit_termination (planner.py), over the analyses of the query that it reads.
-- Query.Semantics: semantic_key and same_field (query_semantics.py), as tests of equality of keys.
-- Optimizer.Bounds, .Memberships, .Terms, .Defs: _optimise_node with its helpers and the loop of
--   _optimise_predicate_fixed_point (optimizer.py), for a query without a source contract. The two
--   `while changed` loops run for as many rounds as there are terms, each round removing one.
--   Optimizer.Rewriting has the rewrites as a relation. Optimizer.Sound has which of them keep the
--   truth value on which records: `is_regular` of Optimizer.Sound.Regular names the records where no
--   comparison raises TypeError or folds case. Optimizer.Shrinking has the size that they lower, which
--   bounds the 32 passes.
-- Provability: _prove_and_contradiction (semantic_provability.py), one field at a time. `Numerals` is
--   Python's int and float of an unquoted text.
-- Temporal: bounds on date and datetime fields (temporal_bounds.py). `is_resolved` says that temporal
--   fields have their canonical names and their literals have a date or a datetime.
-- Staging: staged_predicates.py, with the ordering of planning_heuristics.py and the required fields of
--   query_properties.py. Staging.Capabilities: which fields an enumeration gives exactly
--   (source_capabilities.py, _field_properties); the values of the others are approximate.
-- Collections: the truth of ANY and ALL (collection_semantics.py).
-- Cache.Migration: MigrationCoordinator (cache_migration.py). The rounds of `plan_hops` are the
--   distance of the versions, since a transition advances.
-- Cache.Discovery, Cache.Startup: cache_discovery.py and cache_startup_policy.py over the files that
--   there are and what SQLite reads of them.
-- Download.Profiles: the inheritance of load_profiles (yt-download.py), with the validation of
--   settings as a parameter. The fuel of `resolve` is one more than the profiles; each round visits a new one.
-- Download.Queue: the removal of completed and archived IDs on the bytes of the queue file, and the
--   rewrite of atomic_write_bytes as a step relation with every call that can fail (yt-download.py).
--   os.fsync changes nothing there: interruptions are modelled, a loss of power is not.
-- Download.Report: queue_targets, queue_row_targets and queue_run_report on the decoded lines of a queue
--   (yt-download.py); `Splitting` is Python's strip and the first field of split.
-- Download.Redaction: redact_extractor_argument and redact_command (yt-download.py); `Letters` is
--   Python's strip and lower of a name.
-- Examples: the theorems at concrete inputs.
--
-- Not modelled: parsing and resolution, scalar expressions and collections inside WHERE, grouping,
-- set operations and the materialisation of relations; proofs under a source's capability contract;
-- the value references and the provenance of profiles, the removal of annotated queue rows; SQL
-- statements, the network, the console and the texts of messages.
pub mod Cache
pub mod Collections
pub mod Download
pub mod Examples
pub mod Optimizer
pub mod Prelude
pub mod Provability
pub mod Query
pub mod Sorting
pub mod Staging
pub mod Temporal
