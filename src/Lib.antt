-- ===== src/Lib.antt =====
-- The service that collects, stores and serves the data of Solana validators that Marinade's delegation
-- strategy uses. `collect` takes snapshots of the cluster, `store` merges them into a database, `check`
-- decides whether a collection is due, and `api` keeps a cache of what the database holds and answers
-- queries from it.
--
-- Files, and what they model:
--   Prelude              lists, maps as association lists, stable sorting, u64 arithmetic and f64.
--   Collect/Retry        collect/src/common.rs: `retry_blocking`, `iter_durations`.
--   Collect/Superminority  collect/src/solana_service.rs: `get_minimum_superminority_stake`.
--   Collect/Jito         collect/src/validators_jito.rs: the collection of Jito's accounts.
--   Collect/Validators   collect/src/validators.rs, collect/src/whois_service.rs: the snapshots of the
--                        validators, from what the node and the services answer.
--   Collect/Performance  collect/src/validators_performance.rs: the records of the snapshot.
--   Store/Dto            store/src/dto.rs: the records that the components exchange.
--   Store/Uptime         store/src/uptime.rs: `store_uptime` and its SQL statements.
--   Store/Ranks          store/src/utils.rs: `update_validators_ranks`.
--   Store/Query          store/src/utils.rs: `InsertQueryCombiner`, `UpdateQueryCombiner`.
--   Store/Changes        store/src/commissions.rs, store/src/versions.rs.
--   Store/Averages       store/src/utils.rs: `average`, `update_validators_with_avgs`,
--                        `update_with_warnings`.
--   Store/Aggregates     store/src/utils.rs: `aggregate_validators`.
--   Store/Upsert         store/src/validators_jito.rs, store/src/validators.rs: what `store_mev`,
--                        `store_priority_fee` and `store_validators` share, with their statements.
--   Store/Jito           store/src/validators_jito.rs: `store_jito`, `get_last_jito_info`.
--   Store/Validators     store/src/validators.rs: `store_validators`, over Store/Upsert.
--   Store/Load           store/src/utils.rs: `load_validators` with its loop over the rows, its scores
--                        and yields; the loaders of incidents, uptimes, versions, commissions and
--                        ruggers; the statistics of the cluster; `load_scores`.
--   Store/Fixed          store/src/utils.rs: `to_fixed`, `to_fixed_for_sort`.
--   Store/Hints, Scores  store/src/scoring.rs: the unstake hints, `load_all_scores`.
--   Check                check/src/validators_jito.rs with its query, check/src/validators_block_rewards.rs.
--   Api/Query, Filter, Listing  api/src/handlers/list_validators.rs.
--   Api/Cache            api/src/cache.rs: the cache and the passes that warm it.
--   Api/Breakdowns       api/src/handlers/validator_score_breakdown.rs, validator_score_breakdowns.rs.
--   Tests                the theorems at concrete inputs.
--
-- Conventions. A function of the source has its name here; a method drops its type. An `unwrap` that
-- fails is `none`, an error is `err`. Tables and caches are passed as values. A hash map is an
-- association list in one order of its entries; what is stated holds of every such list, so of every
-- order of iteration. u64 sums wrap at 2^64. An f64 is a parameter with the operations that the program
-- uses. Times are in nanoseconds. All loops are recursions over lists or numbers, so there is no fuel
-- and no bound. Statements are sent in chunks of 500 rows, as in the code.
--
-- Parameters, for what is not in the repository: the database client and the rows that its queries
-- answer with, the node's RPC answers, the crates that read Jito's accounts, the scoring service,
-- BigQuery, the clock, showing numbers, lower-casing, text search and splitting. To the cache,
-- `load_validators` is a given result. Collecting and storing Jito's accounts meet in the snapshot: what
-- the one prints the other reads, so its text is left out.
--
-- Not modelled: the RPC calls of the collection, block rewards and events, the closing of an epoch, and
-- the remaining handlers; the SQL of the longer queries, whose rows are given; command lines, routes,
-- logging and metrics.
pub mod Prelude
pub mod Collect
pub mod Store
pub mod Api
pub mod Check
pub mod Tests
