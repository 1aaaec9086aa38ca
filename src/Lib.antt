-- ===== src/Lib.antt =====
-- A verification of the webhook delivery platform: API processes accept events and write, in one
-- transaction, the event, a delivery for each subscribed endpoint and an outbox message for each
-- delivery; a dispatcher hands the messages to the broker; workers claim a delivery, send the
-- request and store the result; a scheduler queues due retries and takes stale leases back. The
-- components meet in one database only, and the theorems on the whole are about its states.
--
-- Where what is modelled (paths from the repository's root):
--   Schema: the rows of src/webhook_platform/shared/infrastructure/models.py, as records with the
--     source's columns, the database as one list of rows for each table, and the settings.
--   Errors, Access: shared/domain/errors.py; the roles and audit rows of the use cases.
--   Deliveries: deliveries/infrastructure/processor.py (claim_delivery in Claim, the HTTP exchange
--     of execute_delivery in Exchange, its signature in Signature, finalize_delivery in Finalize),
--     deliveries/domain/retry.py (Retry), and replay of deliveries/application/use_cases.py (Replay).
--   Outbox: outbox/infrastructure/repository.py (Messages) and outbox_dispatcher.py (Dispatcher).
--   Maintenance: maintenance/application/reconcile.py (Reconcile) and cleanup.py (Cleanup), and the
--     loop of scheduler.py that runs them (Scheduler).
--   Events: events/application/use_cases.py (Ingest), its repository and canonical form.
--   Endpoints: endpoints/application/use_cases.py (Operations, Verification) and the checks of
--     destinations (Network).
--   Identity: identity/application/use_cases.py over its repository: users and refresh tokens. The
--     order of the requests is the relation TokenStep of Identity.Requests. AccessTokens has the
--     access tokens of shared/infrastructure/security.py and current_user_id of
--     api_dependencies.py.
--   Organizations: organizations/application/use_cases.py over its repository: members (the
--     relation MemberStep of Organizations.Owners), API keys (Keys, with the form of a key in
--     shared/infrastructure/security.py and producer_principal of api_dependencies.py) and
--     listings.
--   Paging: shared/domain/pagination.py (Cursors), and the page that the listings of all components
--     make of a table; Walk is a client that follows the cursors. The modules Listings of
--     Deliveries, Endpoints, Events and Organizations are the use cases that show rows.
--   Http: shared/infrastructure/body_limit.py.
--   Ledger: the abstract specification that the transactions share: which rows belong to a
--     delivery in flight, and the moves that a transaction may make of them. The Refines modules
--     show that each transaction but the retention cleanup is a row of such moves.
--   System: the platform as a relation of steps, one constructor for each transaction, and what
--     can be reached by them.
--   Base: lists, tables, queries and texts. Examples: runs on a small database.
--
-- How it is modelled: a transaction is a function from the database to the database, or to an
-- exception, which rolls it back. SELECT ... FOR UPDATE SKIP LOCKED skips the rows that an
-- arbitrary predicate says are locked. Identifiers of new rows, the clock, the cipher, the HTTP
-- client, DNS, urllib, ipaddress, json.dumps, SHA-256 and the broker are parameters. Where a use
-- case reads before it takes its lock, the earlier database is an argument of its own. A loop of the
-- program is a recursion on a list. Only the client of Paging.Walk runs on fuel, which is enough if
-- it is more than the number of rows, since every page but the last takes one at least. Times are
-- microseconds, identifiers and times natural numbers; Python's integers do not wrap. Password
-- hashing, JWT, HMAC, base64 and the random values are parameters too. A row that breaks a unique
-- constraint or a foreign key makes an IntegrityError where an operation can add or delete such a
-- row; a claim that the table of attempts refuses (a seventh attempt, or a number that is taken) is
-- rolled back. A datetime ends with the year 9999, and a timedelta with 999999999 days. Where a session
-- keeps an object over its commit, as in the verification of endpoints, that object is an argument of
-- the second transaction. A claim of a delivery that a cleanup deletes is dropped from the claims of
-- System, since its result finds no row.
--
-- Not modelled: the rate limiter, which stands before the routes; the routes and their schemas; the
-- validators of the settings; metrics and logs; and the wiring of the processes. Users, members, API
-- keys and tokens have relations of steps of their own, apart from System. The jitter of a delay is a
-- parameter, since it is computed on floats.
pub mod Base
pub mod Schema
pub mod Errors
pub mod Ledger
pub mod Events
pub mod Access
pub mod Endpoints
pub mod Deliveries
pub mod Outbox
pub mod Maintenance
pub mod Paging
pub mod Identity
pub mod Organizations
pub mod Http
pub mod System
pub mod Examples
