-- ===== src/Lib.antt =====
-- Verification of the core of Slurm-web: who may do what, what the client of the Slurm REST API makes
-- of its answers, what its cache returns, and what its database keeps of roles and jobs.
--
-- The agent of a cluster answers the requests of the gateway. For each it asks the access control
-- manager whether the user may do it, reads from slurmrestd through a cache, adapts the answer of an
-- older API version to the newest, and normalises the payloads that it sends. The parts, with the
-- files that model them:
--
-- - Permission (slurmweb/permission_rules.py). A rule is the text `resource:operation:scope`.
--   Permission/Rule has `normalize_permission_rule` and `sort_permission_rules`, Permission/Matching
--   has `permission_rule_allows` and `permission_rules_allow`, Permission/Legacy the map from the
--   actions of the file policy to rules with its YAML file (given as the document that the parser
--   returns), Permission/Seed the roles of a new database, Permission/Catalog the catalogue.
--   Permission/Grant has the description of what a rule grants that the code is compared with.
-- - Access (slurmweb/access_control.py). `AccessControlPolicyManager`: the file policy of the RFL
--   library and the store of the database are parameters, functions from a user to an answer; an
--   exception of the store is `none`. Sets of texts are lists of their members.
-- - Slurmrestd (slurmweb/slurmrestd/__init__.py, slurmweb/slurmrestd/errors.py). Response has
--   `_validate_response` and `_execute_request` on what the HTTP library returns; the warnings of an
--   answer, which are only logged, are left out. Discovery has `discover`: the client's state is
--   passed along, and the server is a function from the version to its reply. Gres, Partition,
--   JobStates and NodeStates have the statistics, `jobs_states` and `resources_states`. A node has
--   the keys that slurmrestd sent; a missing or null key that the counting reads, and a GRES text
--   that cannot be read, are `none`, for an exception. Memory is counted in MB, where the code
--   divides by 1024 in floating point.
-- - Cache (slurmweb/cache.py, and `SlurmrestdFilteredCached` of slurmweb/slurmrestd/__init__.py).
--   Redis is a record of commands and of the laws that the code relies on: a command may be lost, and
--   a value may expire at any time. Service has `CachingService`, Keys the reads, the writes and
--   their keys, Cached `_cached`, `_invalidate_cached_keys` and the reading and writing methods. What
--   slurmrestd answers is a function from reads; the cache is coherent when what it holds is what
--   slurmrestd answers. A `None` that has been stored counts as not held. Affects says which answers
--   each write may change, by the subject of the write and that of the read, not by the keys of the
--   code.
-- - Json and Payload (slurmweb/slurmrestd/__init__.py). JSON values with integers for numbers, and
--   the `_normalize_*_payload` methods with `_association_delete_query`. The name of the current
--   cluster is a parameter, the result of `_current_cluster_name`, and so is Python's `str` on values
--   that are no text.
-- - Adapters (slurmweb/slurmrestd/adapters). Each adapter on lists of items, and
--   `build_adaptation_chain`, where Succession has the two versions of each adapter; a missing key or a
--   number that cannot be read is `none`.
-- - Hotspots (slurmweb/metrics/hotspots.py). The segmentation of the samples of a node into events,
--   on states that the rounds of the loop hand on, and the ranking; Runs describes the events without
--   a loop. Times are milliseconds; usages are any type with an order, and the rounding to a tenth is
--   a parameter that keeps the order.
-- - RoleStore (slurmweb/persistence/access_control_store.py). The tables of roles, users and
--   assignments as lists of rows, each method as a function from the tables to a result and the
--   tables, with a rollback when it raises; the SQL statements by their effect. Roles, Members,
--   Assigning and Seeding have the methods, Valid the constraints of the tables, View what a client
--   sees of them, and Contents and Rewrites what each call does to the columns of the roles. `NOW()`
--   is an argument of each call; the order of names by the database's collation, and whether a name
--   matches `ILIKE`, are parameters.
-- - Jobs (slurmweb/persistence/jobs_store.py). Fields, Steps, Usage, Extract and Detail make rows
--   from slurmrestd's answers; Queue has the pending rows, Upsert the statement on the table of
--   snapshots, Flush the flush with its two attempts at each row and with the exceptions that leave
--   it (Chunks follows the loop over the chunks), Reconcile the scheduled snapshot with the jobs that
--   are gone, Candidates and Backfill the backfill of usage fields (Report says what it logs and
--   where its values come from), History the history query. The record `Python` stands for the
--   interpreter's `str`, `json.dumps`, `float` and floating point arithmetic, the record `Database`
--   for how each statement ends and whether a connection is had and given back, the record `Sql` for
--   how the database compares texts. Rows that other threads queue during a flush are its argument.
-- - Prelude: Python's texts (`strip`, `split`, `startswith`, `int`), dictionaries as association
--   lists in the order of insertion, sorted sets, and results that may be exceptions.
--
-- Loops are over lists, so no fuel is needed but for the chunks of a flush: the fuel is the number of
-- pending rows, and each round takes at least one of them. Numbers are those of Python, without
-- bounds.
--
-- Not modelled: the metrics and the reset of the cache's statistics and the filtering of cached jobs
-- by a query; of slurmweb/persistence/jobs_store.py the enrichment of one record, the queries for
-- user analytics, the cleanup, the partitions and the thread; the other stores of
-- slurmweb/persistence, which are mostly SQL; the Flask views and applications, the command line,
-- LDAP and the AI assistant, which call other services; the collection and the queries of
-- slurmweb/metrics; the frontend.
pub mod Prelude
pub mod Permission
pub mod Access
pub mod Slurmrestd
pub mod Cache
pub mod Json
pub mod Payload
pub mod Adapters
pub mod Hotspots
pub mod RoleStore
pub mod Jobs
