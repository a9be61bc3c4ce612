-- ===== src/Lib.antt =====
-- Messaging gateway: a verification library for the gateway's inbound path, its message log, its
-- accounts and what it sends.
--
-- The program takes messages from WhatsApp, Telegram, SMS and e-mail accounts, filters them, stores
-- each in a message log under a number of its account, delivers them live on an event bus, and sends
-- messages through the adapter of an account. Paths below are those of the repository.
--
-- The parts and their files:
--   Prelude    what the other files share: Boolean tests, lists, options and texts
--   Auth       src/core/auth/api-key.guard.ts: resolve_auth_scope, extract_api_key, api_key_guard and
--              validate_webhook_signature are the functions of these names
--   Messages   src/core/messaging: the envelope and its content; Messages/Format is
--              src/core/persistence/message-store.utils.ts
--   Accounts   src/core/accounts and src/core/routing; Accounts/Repository is
--              src/infrastructure/config/in-memory-account.repository.ts, Accounts/Routing is
--              src/core/routing/message-router.service.ts
--   Store      src/persistence/sqlite-message-store.ts with the tables of
--              src/persistence/migrations/scripts/sqlite/003_message_log.sql; insert_inbound is
--              insertInbound, delete_older_than is deleteOlderThan; Store/Contract is what every store
--              of messages promises, an interface that SQLite (Store/View) and PostgreSQL
--              (Postgres/Contract) fill; Store/Pages is queryAfter, and Store/Feed puts it
--              together with insertInbound
--   Postgres   src/persistence/postgres-message-store.ts, over the same rows
--   Migrations src/persistence/migrations/migration-runner.ts and its adapters
--   Media      src/core/inbound/media-service.ts; Media/Resume is resumePendingMedia with the stores'
--              findPendingMedia
--   Sockets    src/integrations/whatsapp/baileys/baileys-socket.manager.ts with src/core/util/backoff.ts
--   Guard      src/core/inbound/store-guard.ts, the circuit breaker in front of the log
--   Failed     src/persistence/failed-inbound-file.ts, where messages go that the log does not take
--   Pipeline   src/core/inbound/inbound-pipeline.ts; Pipeline/Turns is its handle,
--              Pipeline/Replay its replayFailed
--   Shutdown   src/infrastructure/graceful-shutdown.ts
--   Forwarder  src/connections/webhooks/webhook-forwarder.ts; Filters is
--              src/core/filters/envelope-filter.ts
--   Webhooks   src/connections/webhooks/file-webhook-config.store.ts
--   Cache      src/core/util/ttl-cache.ts
--   Alerts     src/connections/webhooks/connection-alert.subscriber.ts
--   Broadcaster
--              src/connections/ws/websocket-broadcaster.ts
--
-- How state is modelled: the tables of the log are a record and each statement a function on it; a
-- transaction that throws gives back the tables as they were. The guard is a system of its circuit and
-- the calls in flight, and an event is what ends one of the program's waits, so that every order of
-- events is a run; the media service and the socket manager of an account are systems in the same way.
-- A transaction on PostgreSQL is one step, since the row lock on the account's counter holds the
-- account's others back. The pipeline lists its actions on the outside in their order, and what its waits
-- bring is an argument; a promise chained to another is a step that waits for it. A file is the list of its code
-- points, but for the file of accounts, which is what `toYaml` lists. How late a timer of the shutdown fires is an
-- argument.
--
-- How the parts meet: the pipeline's inserts are answered by the guard, whose attempts are those of the
-- log (Guard/Retried joins the two); what the guard rejects goes to the failed log, whose replay calls
-- back into the pipeline (Pipeline/Order is a statement on both); accounts decide what the pipeline
-- keeps and who may send. The media service records what it stored in the log, and follows the log's
-- pages on a start; the migrations run before either.
--
-- Bounds and fuel: the batches of delete_older_than run on fuel, and more fuel than there are rows is
-- enough, as it is for a consumer that follows the pages; resume_pending_media needs more fuel than the
-- highest sequence. Everything else is structural recursion. JavaScript numbers that count are natural numbers:
-- sequences start at one, grow by one and stay far below 2 ^ 53.
--
-- Not modelled: HTTP, the libraries behind the sockets (what they report is an event), the databases'
-- own failures (the guard takes them as answers), the other provider adapters, configuration, logging
-- and metrics. HMAC, the parsing of an entry, what SQL does to a schema, the jitter of a delay and the
-- adapters are parameters.
pub mod Postgres
pub mod Prelude
pub mod Auth
pub mod Media
pub mod Messages
pub mod Migrations
pub mod Accounts
pub mod Samples
pub mod Store
pub mod Shutdown
pub mod Sockets
pub mod Webhooks
pub mod Guard
pub mod Failed
pub mod Cache
pub mod Filters
pub mod Forwarder
pub mod Broadcaster
pub mod Alerts
pub mod Pipeline
