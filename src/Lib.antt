-- ===== src/Lib.antt =====
-- A verification library for matfix, a relay between an HTTP API and Matrix homeservers.
--
-- matfix takes requests to send messages, stores them as jobs in an SQLite table, delivers them by
-- a pool of workers with retries, and lets callers wait for inbound events that match a filter.
--
-- The files, by the part of the program that they model:
-- - Shared: names of the libraries, Boolean tests, lists, signed integers (Go's int64), results
--   and actions that may fail.
-- - Persistence (internal/persistence/store.go): Statement is one call of database/sql, which may
--   fail at the driver; Queue is sqlQueueStore over outbound_queue, a table being the list of its
--   rows. Queue/Keys has the constraints of the schema, Queue/Lookup the table as a map from IDs,
--   Queue/Select the choice of PullNext, Queue/Contract the other statements, Queue/Listing
--   ListByState. Correlations is sqlCorrelationStore, with Sweep about DeleteExpired. SyncStore is
--   sqlSyncStore. Migrate (migrate.go of the same directory) is Migrate, with Once about what a
--   run records and Again about a second run.
-- - Config (internal/config): the configuration, its defaults, applyEnvOverrides, Load and
--   Validate; Problems says what each problem means, Overrides what the environment can break.
-- - Account (internal/account): AccountManager, with Started about StartAll and Stopped about
--   StopAll.
-- - Engine/SendTypes (internal/engine/send_types.go): the requests.
-- - Queue (internal/queue): Payload is encodePayload and decodePayload, Retry is NextScheduledAt
--   and IsExhausted, Manager is QueueManager. Below Manager stand Effects (what each method does
--   to the rows), Outcome (what Enqueue returns beside that) and Idempotency.
-- - Bus/Events (internal/bus/events.go): event types and envelopes. Bus/Local (local.go):
--   LocalBus, whose subscriptions are objects that two maps point to; Steps interleaves its
--   operations.
-- - Worker (internal/worker/worker.go): processOne, onSendFailure and a pass of runWorker.
--   Worker/Pool has the workers as interleaved steps on one queue: submissions, pulls and the
--   settling of jobs in any order.
-- - Correlation/Filter (internal/correlation/filter.go and types.go): filters, their validation
--   and compilation; Match is the matching, Meaning an independent reading of the documentation.
-- - Correlation/Requests, Correlation/Manager (manager.go, ask.go, receive.go and cleanup.go of
--   the same directory): CorrelationManager with its asks and receives on a heap, since a handler
--   holds pointers to what the maps no longer name. Manager/Steps interleaves registrations,
--   events, the deliveries that they start, timers and sweeps. AskFilter is about the filter of
--   RegisterAsk.
-- - Engine/Rooms (internal/engine/rooms.go): the rooms of destinations, over the calls of mautrix
--   that read and write m.direct; Engine/Rooms/DirectRooms is about direct rooms. Engine/Html
--   (html.go) is SanitizeHTML on parsed nodes, with Clean about what is left. Engine/Client
--   (send.go) is Send over the calls in Engine/Calls, with Engine/Media (internal/media) for
--   files; Client/Sanitized and Client/Sealed are about what the homeserver is told.
-- - Submission (internal/submission): SubmissionManager over the queue and the homeservers.
--   Registry is what it promises on the map from keys to jobs, Idempotent is about repeated keys,
--   Guards about requests that are turned away.
-- - Persistence/ApiKeys is sqlAPIKeyStore. Api/Auth (internal/api/server.go and authz.go) is the
--   middleware of the API and its checks, Api/RateLimit (ratelimit.go) the buckets of the keys,
--   Api/Payload and Api/Send (send.go and router.go) POST /v1/send from the header to the queue.
--   Api/Filter is requestFilterToCorrelation (receive.go), with Meant about what filters mean, and
--   Api/Events envelopeToPayload (the same file). Admin/Keys (internal/admin/routes/keys.go) has
--   the handlers that write the keys, with Access and Rotation about what they change for clients.
--   Admin/Views (inspect.go of the same directory, and internal/api/admin.go and health.go) has
--   the views, with Counts about those of the queue.
-- - Sync/Dedup (internal/sync/dedup.go): isSeen and markSeen over Persistence/EventCache, which is
--   sqlEventCacheStore.
-- - Sync/Normalize (internal/sync/normalize.go): dispatchEvent and dispatchEphemeral, with the
--   handlers of the event types in Sync/Handlers, over the events of mautrix in Sync/Event; Total
--   is about the fuel, Outcome about what becomes of an event, Once about second deliveries. Sync/Loop (loop.go) is the loop around
--   /sync with its backoff and the stored token: Batch lists the calls that a response makes,
--   Covers is about the token, Waits about the backoff.
-- - Scenarios: tests, and theorems at concrete inputs.
--
-- Correspondence. Names are those of the source in snake case, and a method takes its receiver as
-- the state. Readings of time.Now(), new UUIDs and the answers of clients are arguments. The
-- context argument is left out but in the loop around /sync, where it counts the looks at
-- ctx.Err() before the cancellation. The state column of the queue is the enumeration of the
-- constants that all writers pass. The error texts are left out; the causes are constructors of
-- Error. A table remembers which of its coming statements fail, so every theorem about it holds
-- for every pattern of failures.
--
-- Bounds. Every recursion is structural but that of dispatchEvent on decrypted events, which has
-- fuel: one unit for each layer of encryption and one more are enough. The loop around /sync runs
-- for as many passes as there are answers in a list, of any length. Times and durations are
-- integers; the product of the linear backoff wraps at 64 bits, and the float64 operations of the
-- exponential one are a parameter whose exactness on small positive integers is a named hypothesis. Retry
-- counts and max_retries are natural numbers, since the configuration is refused if max_retries is
-- negative.
--
-- Parameters: encoding/json (Json), float64 (Float64), the package regexp (Regexp), the clients of
-- mautrix (Client), its events (Mautrix) and its decryption, its calls of a homeserver (Matrix,
-- and Engine/Calls for what Send makes of a request, with the ciphers of attachments), the answers
-- to /sync (Turn), the parser of golang.org/x/net/html (Html), the YAML decoder and the
-- environment, the scripts of the migrations (Scripts), which clients and crypto managers can be
-- made, the marshalling of filters, and of permissions together with the hash of keys (KeyCodec),
-- base64, and the token buckets of golang.org/x/time/rate (Buckets).
--
-- Not modelled: HTTP itself, the handlers of asks and receives around the correlation manager; the
-- crypto manager, which calls the machine of mautrix; opening the database; logging and metrics;
-- the two commands, which wire the parts and print.
pub mod Shared
pub mod Persistence
pub mod Engine
pub mod Config
pub mod Account
pub mod Queue
pub mod Bus
pub mod Sync
pub mod Worker
pub mod Submission
pub mod Correlation
pub mod Api
pub mod Admin
pub mod Scenarios
