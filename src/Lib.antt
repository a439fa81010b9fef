-- ===== src/Lib.antt =====
-- recuerdos-ai keeps the memories of several users for their agents. A request carries an API key;
-- the identity part turns it into the context of a user. A memory is saved at once, or queued as a
-- job that workers later hand to a pipeline of language models; the store keeps every memory with an
-- audit trail, in SQLite.
--
-- Files:
-- - Prelude.antt and Prelude/: numbers, tests, lists, and maps as association lists.
-- - Text.antt: what the program calls on `str`, on lists of characters.
-- - Shared/Error.antt: src/shared/error.rs, without the messages.
-- - Shared/RateLimit.antt: src/shared/rate_limit.rs. `try_acquire` is one call under its lock; Balance.antt
--   under it has what a caller owns at an instant, Requests.antt runs of calls, Retry.antt the wait.
-- - Identity/Scope.antt, UserContext.antt, ApiKey.antt: src/identity/domain/scope.rs, user_context.rs,
--   user.rs and api_key.rs, and src/identity/application/background_user_resolver.rs.
-- - Identity/VerifiedKeyCache.antt, KeyAuthenticator.antt: src/identity/application/
--   verified_key_cache.rs and key_authenticator.rs. `execute` passes the cache along; `serve` is a
--   series of requests, each with the contents of the repositories at its moment.
-- - Memories/Category.antt, Memory.antt: src/memories/domain/category.rs and memory.rs.
-- - Memories/Repository.antt: src/memories/domain/memory_repository.rs and
--   src/memories/infrastructure/sqlite_memory_repository.rs. `insert`, `update_memory`,
--   `delete_memory`, `supersede_memory`, `merge_memories`, `set_importance` and `touch_accessed` are
--   the methods that write. Repository/Operations.antt has them as one type, and series of calls;
--   Retiring.antt beside it says what a merge makes of the rows and of the audit trail, and
--   `audit_trail` is in Repository/Trail.antt.
-- - Memories/DocumentText.antt: src/memories/domain/document_text.rs.
-- - Memories/Services.antt: direct_memory_saver.rs, memory_updater.rs, memory_forgetter.rs and
--   memory_finder.rs of src/memories/application/, over a world of the store and the two indexes.
--   `save`, `update`, `forget` and `find_one` are their `execute`.
-- - Recall/Query.antt, EntityKey.antt, Ranker.antt, Expansion.antt: recall_query.rs, entity_key.rs and
--   recall_ranker.rs of src/memories/domain/. Comparison.antt, Sorting.antt and Floats.antt are what they
--   use of the standard library; Ranker/Rerank.antt is `apply_rerank`, and Ranker/Order.antt what the order
--   of ranked rows is.
-- - Recall/Recaller.antt: src/memories/application/memory_recaller.rs. `execute_with` is a recall from
--   the embedded query to the report; Seeds.antt and Filters.antt are `seed_candidates` and `matches`,
--   RerankLeg.antt the second stage, and Receiver.antt its loop over what the scoring thread sends.
-- - Understanding/JobQueue.antt: src/understanding/domain/ingest_job.rs and
--   src/understanding/infrastructure/sqlite_job_queue.rs, one function for each method.
-- - Understanding/IngestWorkers.antt: src/understanding/infrastructure/ingest_workers.rs, and the
--   outcomes and the error rule of src/understanding/domain/ingest_pipeline.rs.
-- - Understanding/Reconciler.antt: src/understanding/domain/reconciliation.rs (`parse_decision`) and
--   `apply` of src/understanding/application/memory_reconciler.rs.
-- - Consolidation/ClusterBuilder.antt: src/consolidation/domain/cluster_builder.rs, `link` and
--   `clusters` and what they call. Forest.antt under it has the roots without halving, Slots.antt the
--   state against a colouring that repaints, Links.antt what that means for links, and Groups.antt and
--   Clusters.antt the groups that are read out.
-- - Consolidation/Runner.antt, Planner.antt, Groups.antt, Budget.antt: parts of
--   src/consolidation/application/consolidation_runner.rs. `execute` is a pass, `consolidate_user` the
--   part of a user, `plan` what is compared, and Budget the three limits. Maintainer.antt and Merger.antt
--   are memory_maintainer.rs and memory_merger.rs beside it, with domain/decay.rs and `parse_merge` of
--   domain/merge_prompt.rs; Similarity.antt, Report.antt and Watermarks.antt are domain/similarity.rs,
--   domain/consolidation_run.rs and infrastructure/sqlite_consolidation_state_store.rs.
-- - Understanding/Taxonomy.antt: src/understanding/domain/taxonomy.rs, `resolve`.
-- - Examples/: the theorems at concrete inputs.
--
-- How the model reads the code: an identifier is a number, and a fresh one is an argument. An
-- instant is a number of nanoseconds, and a call reads the clock once. A table is the list of its
-- rows in the order of their insertion, and a statement or a transaction is one step, as SQLite's
-- lock makes it. A single-precision number is a multiple of its smallest unit, so that comparisons
-- are exact; how sums, products, quotients and powers are rounded is an argument of the ranking. The
-- tokens of the rate limiter, a float in the code, are exact multiples of the part that a nanosecond
-- earns; the rounding of the code is not modelled. A row of the store holds a memory as it is read
-- back. Where the code handles a database that fails (on a deletion, on scores, on the candidates of
-- a recall and their accesses, on a watermark, on how a job ended), whether it fails is an argument,
-- and a write that fails changes nothing. The thread that scores a head of memories is the sequence
-- of events that its receiver gets. In a pass of consolidation the clock and the identifiers that
-- are drawn depend on the state they are read in. Texts for people (messages, the log) are left out.
-- SHA-256, Argon2, serde_json, the pipeline and the repositories that a service is built over are
-- arguments.
--
-- Bounds and fuel: `drain` has fuel, the number of passes; more fuel than there are due jobs is
-- enough, since each pass makes one job no longer due. `root` has fuel, the number of turns; one more
-- than the position is enough, since a parent never stands after its child. The attempts of a job are
-- read modulo 2^32.
--
-- Not modelled: extraction, the distiller and the profile digest of consolidation, the HTTP and MCP
-- layers, the providers, and the indexes of texts and vectors, which are input and output, text for
-- models, or built around libraries.
mod Prelude
pub mod Text
pub mod Shared
pub mod Identity
pub mod Memories
pub mod Understanding
pub mod Consolidation
pub mod Recall
mod Examples
