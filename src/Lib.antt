-- ===== src/Lib.antt =====
-- NMSlite, a network monitoring server: a verification library of its Go code.
--
-- The server polls devices. A scheduler (internal/poller/scheduler.go) keeps the active monitors
-- in a cache and in a queue by deadline; a tick takes what is due from the queue, gathers the
-- monitors by plugin and starts a worker for each batch. The worker probes the devices, decrypts
-- credentials, calls the plugin and reports each outcome back to the scheduler, which counts
-- failures, takes monitors that are down out of the cache and sends events. Metrics of successful
-- polls go through a batch writer (internal/poller/batchWriterWorker.go) into the database. The
-- API and the discovery create monitors, and the scheduler hears of changes by events.
--
-- Files, and what they model:
--   Common, Common/*: numbers, lists, maps and JSON as the model uses them. A Go map is an
--     association list (Maps); sums of weights over lists (Lists) say that entries are the same as
--     often.
--   Database, Auth/Credentials, Poller/Events: rows, credentials and messages
--     (internal/database/dbgen, internal/api/auth/credentialService.go, internal/globals/events.go). Times are
--     nanoseconds, ids are natural numbers. Database/Tables: the statements of the queries over
--     tables, with those of profiles and devices in modules below it; Database/Joined: what they
--     do to the rows that the scheduler caches; Database/Listed: the queries that list a table;
--     Database/Metrics: those of metrics, and Grouped what they find.
--   Auth: internal/api/auth. Security is Service, Containers CredentialService, Middleware the
--     guards of requests; Roundtrip, Logins and Guarded have the proofs.
--   Protocols: internal/protocols. Schemas is credentialSchemas.go, Registry registry.go; Decoded,
--     Usable, Accepted and Refused say what the strict validation reads, accepts and refuses.
--   Configuration: internal/globals/config.go; Loaded goes on to the service that
--     cmd/server/main.go makes.
--   Api: internal/api. Requests is common/helpers.go, Monitors and Profiles are
--     handlers/monitors.go and handlers/credentialHandlers.go, as actions on the tables and the
--     channel of cache events. Secrets follows credentials from the handler to the scheduler.
--     Coherence, with Served, Quiet, Refreshed, Provisioned and Histories, compares the tables
--     with the scheduler's cache.
--   Discovery/Provisioning: provisioning.go and the handler of validated devices in worker.go.
--   Poller/Queue: PriorityQueue with container/heap's push and pop. Order, Up and Down prove the
--     heap order. The sift loops run on the queue's length as fuel, and each step halves or
--     doubles the index.
--   Poller/Scheduler: SchedulerImpl. Monitors are shared by pointer, so a store holds them and the
--     cache holds addresses. Cache is LoadActiveMonitors, updateMonitorCacheFromRow and
--     removeMonitorFromCache, with the cache events of Run; Dequeue is dequeueDueMonitors with
--     rescheduleUnlocked; Dispatch is processMonitors and tick; Outcome is handleSuccess and
--     handleFailure; Batch is processPluginBatch with ensureCredentials. The proofs: Invariant,
--     Kept and Reachable (what every operation keeps), Round, Termination and Divergence (the
--     queue's loop), Dispatched and Ticked (what a tick dispatches), Outcomes (reports),
--     Credentialed, Settled, Handled and Released (the end of a batch), Cached (the cache as a
--     map). The loop of dequeueDueMonitors has no bound in the code; it runs on fuel here, and
--     Termination says how much is enough.
--   Poller/Workers: the goroutines of SchedulerImpl, with Run, shutdown, the semaphores and the
--     wait group, as steps of a list of batches with their probes. Counted and Invariant say which
--     slots are held, Progress and Shutdown that a shutdown ends.
--   Poller/Plugins: internal/poller/plugins.go; Scanned says which plugins a scan leaves.
--   Poller/BatchWriter: Submit, Run, flush, writeBatch and requeue. What a run stores is what the
--     writer hears of; what it has written includes commits whose answer is lost. Flow, Conservation, Bounds and
--     Failures prove what becomes of the records.
--   Poller/Results: the metrics of a poll's results (internal/poller/pollResultsHelper.go).
--   Discovery/Addresses: net/netip's addresses and prefixes. Discovery/Targets, with Strings:
--     targets.go; Blocks and Ranges prove what CIDR blocks and ranges expand to, and Accepted what
--     is accepted. The loops of an expansion give up past 65536 addresses, so fuel above that is
--     enough.
--   Discovery/Worker, with World: worker.go, from a request to its status event; Runs, with
--     Announced and Running, has its proofs.
--   Discovery/Handshake, with Network: internal/discovery/handshake.go; Security is about the
--     parameters of SNMPv3, Accepted about credentials that validation accepts.
--   Winrm: plugin/windows-winrm, a program of its own that a poll runs. Client is winrm/client.go,
--     Wmi, Collector and Names collector/collector.go, Program main.go; Totals and Partial say
--     what the collectors find, and Program/Answers what the program writes. The parameters that
--     all clients share are a Boolean that goes from task to task.
--   Api/Discoveries, Devices, System, Router: internal/api/handlers/discovery.go, devices.go,
--     system.go, and internal/api/router.go. Api/Lists has the handlers that list. Targets and
--     Triggered are about discovery profiles and their runs, Router/Unauthorized about requests
--     without a token; Coherence/Unaffected and Idle show that these requests leave the
--     scheduler's cache alone. Api/Metrics is QueryMetrics; Queried, Points and Rows say
--     how an answer is made, Asked which rows a request asks for, and Reported what is answered.
--   Poller/Tests, Discovery/Tests, Auth/Tests, Protocols/Tests, Configuration/Tests, Api/Tests and
--     Winrm/Tests: the theorems at small inputs.
--
-- What a library or the network decides is an argument: base64, AES-GCM, the random source,
-- tokens, encoding/json, the environment, the liveness answers and their order, the plugin's
-- results, request ids, the libraries for SSH, WinRM and SNMP, files and the run of a program, the
-- grammar of addresses, floats, the order of lists, which queries the database does not answer,
-- and each call of a database transaction. Where a theorem needs their documented behaviour, a
-- record of laws says what it is (IsCrypto, IsJwt, IsParts, IsOrder, IsSql). Logging is left out.
-- Goroutines that take the scheduler's lock are steps in any order (Reachable), and Workers says
-- in which order they block; within a batch the worker's steps are in the order of the code; in
-- Coherence the events of a request are handled before the next request. Requests for discoveries
-- go to a channel that each request meets as an argument.
-- Not modelled: panics of handlers, identifiers below 0, the timing of tickers, start-up
-- (cmd/server/main.go but for initAuthService), the connection pool and migrations
-- (internal/database/database.go, migrations.go), which only call libraries, and durations and
-- connection strings of the configuration.
pub mod Common
pub mod Database
pub mod Auth
pub mod Protocols
pub mod Configuration
pub mod Api
pub mod Discovery
pub mod Poller
pub mod Winrm
