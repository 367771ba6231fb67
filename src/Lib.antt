-- ===== src/Lib.antt =====
-- Verification of the core of Personal Knowledge MCP: the machinery that decides when changes and
-- updates are processed, which files have changed, what is cached, how files are cut for
-- embedding, who may use the service, and how the schema of its database is migrated.
--
-- The parts and their files:
-- - ProcessingQueue: the queue between change detection and the update pipeline
--   (src/services/processing-queue.ts, with -types.ts and -validation.ts). Config is the
--   configuration and its schema; State the fields of the class, with `Flight` for the local
--   variables of a suspended processNextBatch and processWithRetry; Machine the synchronous code
--   (enqueue, processNextBatch up to its first await, `settle` for what follows the finally
--   block, onTimerFired); Events the calls that end the queue and every callback (timers, the
--   processor's promise, the retry delay), and runs. Invariant, Fifo, Attempts, Drain, Wake and
--   Stall are about runs.
-- - QueryCache: the cache of graph query results (src/services/graph-service-cache.ts). Keys is
--   the prefix of a key; Cache every operation; Entries and Index are about the prefix index,
--   Bounds about eviction, Reads about what a read returns, Prefix about clearByPrefix.
-- - UpdateJobs: RateLimiter (src/mcp/rate-limiter.ts), JobTracker (src/mcp/job-tracker.ts) and
--   the handler that uses both (src/mcp/tools/trigger-incremental-update.ts,
--   src/services/update-coordinator-dispatch.ts): Server is its data, Trigger its steps.
--   RateLimits views the limiter as a map of phases; Cleanup, Retention and Size are about the
--   tracker's clean-up; Flights, Exclusion and Outcomes about the handler.
-- - Debounce: src/utils/debounce.ts. Config is the validation, Batcher the batcher, Batches and
--   Stranded are about its runs.
-- - FileChunker: src/ingestion/file-chunker.ts and estimateTokens of
--   src/ingestion/chunk-utils.ts. Chunker is the code; Slices, Overlap and Files are about the
--   chunks.
-- - Retry: src/utils/retry.ts. Backoff is the configuration and the delays, Loop withRetry over
--   an operation on a state, Attempts is about its runs.
-- - FolderSync: changes of a local folder (src/services/local-folder-change-detector.ts) and the
--   rules of which files count (src/ingestion/file-eligibility.ts). Eligibility is the rules,
--   Walk the folder as a tree and the walk over it, Detector `detect` from the walked snapshot
--   on, Folder `detect` with its walk. Rules says the rules once more, apart from the code's own
--   tests; Diff, Walked and Settled are about what is reported.
-- - ChangeDetection: renames and deletions from file events
--   (src/services/change-detection-service.ts). Service is the events, timers and suspended state
--   captures; Timers, Invariant, Counts, Conserved, Reports and Overlapping are about its runs.
-- - Tokens: access tokens (src/auth/token-service.ts, src/auth/token-store.ts). Validation is the
--   data (src/auth/types.ts) and the schemas (src/auth/validation.ts), Store the cache and the
--   tokens that all copies of the map share, Service each operation from its call over its copy
--   of the map to the end of its save, Queries the operations that only read. Guarded and Revoked
--   are about revocation, Finds, Finish and Sequential about one call at a time, Issued about new
--   tokens, Races about overlapping saves, Listed about the listings. Rules and Formats say the
--   rules of tokens and the formats once more, apart from the code's own tests.
-- - Migrations: schema migrations (src/graph/migration/MigrationRunner.ts). Registry is the
--   registry, Runner the application and recording of migrations, Migrate what is read of the
--   database, the selection, whole runs and the status. Ordered and Format are about the registry,
--   Registered, Selection and Compared about the selection, Pending about the status, Runs,
--   Outcomes and Again about runs; Reports says what a run should come to.
-- - UserMapping: scopes from the claims of an identity provider
--   (src/auth/user-mapping/user-mapping-service.ts). Service is the rules and the cache of them;
--   Sorted and Chosen are about the rule that decides, Stale about the cache.
-- - Tables: tables of documents as CSV (src/documents/TableFormatter.ts). Formatter is the export,
--   Reader a reader of RFC 4180, which is no part of the program, and Csv compares the two.
-- - JsMap is a JavaScript Map: an association list in the order of insertion, in which setting a
--   present key keeps its place. Base holds the shared names, tests on numbers, texts and list
--   lemmas.
-- - Tests runs the models on small inputs and applies the theorems there.
--
-- Correspondence. An operation takes the clock's value and the state and returns the new state,
-- with its result or with the outputs it causes. JavaScript is single-threaded, so an
-- interleaving is a list of timed events, each the code from one suspension to the next; nothing
-- is assumed of the clock's values in a list. A timer is the time from which it may fire, and an
-- event whose timer is not set or not due changes nothing. A processor, handler, coordinator or
-- store is not modelled: its promise settles by an event, whenever and with whatever outcome. In
-- the handler a flight ends when the race against the timeout is decided; an update abandoned
-- there may go on outside the model. Job ids, error values and repositories are of any type with
-- decided equality.
--
-- Bounds. Numbers are unbounded naturals: times and counts of the source are far below 2^53.
-- Subtractions of times are written so that cutting off at 0 does not matter, or where it does a
-- negative difference would give the same answer. An operation reads the clock once, where the
-- source may read it twice within one synchronous call. Loops are structural recursion; only the
-- `while` loop of the cache's eviction has fuel, one round for each entry, and as each round
-- removes an entry this is enough. A text is the list of its code points; trim and the line ends
-- treat these as the source does.
--
-- Given from outside. What the file system, the .gitignore filter, a hash, path.basename, the
-- semver library and the database answer is a parameter: a function, or an event that brings the
-- answer. The semver comparison is assumed to be total and transitive, where a theorem needs it;
-- on which versions it throws is a parameter, but in the registry's own sort it is taken not to.
-- The tokens' file is read once, before a run starts; a token is named by its hash, so that two
-- tokens never have the same one unless the same raw token is generated twice.
--
-- Not modelled: logging, audit events, texts of messages, generated ids, reading the environment
-- (its parsed values are parameters), rates and averages of metrics, the contents of the token
-- and manifest files. The other parts of the repository (ingestion services, the update pipeline,
-- documents, OIDC, graph queries, HTTP and MCP servers, stores, providers, command line) are not
-- modelled.
pub mod Base
pub mod JsMap
pub mod ProcessingQueue
pub mod QueryCache
pub mod UpdateJobs
pub mod Debounce
pub mod FileChunker
pub mod Retry
pub mod FolderSync
pub mod Tokens
pub mod Migrations
pub mod ChangeDetection
pub mod UserMapping
pub mod Tables
pub mod Tests
