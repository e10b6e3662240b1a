-- ===== src/Lib.antt =====
-- The backend of a real-estate CRM (Python, backend/app): several tenants share one PostgreSQL
-- database through services for bookings, sales, ownerships and more, users reach it through roles
-- and permissions, and a voice agent takes telephone calls. This library models the path of a
-- property from booking to sale to ownership, the access checks and endpoints in front of it, the
-- queue of the outbound calls and the worker that drives it, the normal form of telephone numbers,
-- and the codec of the telephone audio.
--
-- How the parts interact: a router asks backend/app/core/permissions.py for the permission and the
-- tenant filter of the request's context, and hands that filter to a service; the service reads and
-- writes through its repository, and a sale writes the tables of bookings, leads, ownerships,
-- listings and properties in one transaction. What all requests do to one database, in any order,
-- is in Crm.
--
-- Which file models what:
--   Base: numbers, texts, lists and tests that all parts share.
--   Core/Errors: the error classes of backend/app/core/exceptions.py and the mapping of refused
--     writes of backend/app/core/db_errors.py.
--   Db/Rows: the tables as lists of records. Db/Action: a coroutine as a function from the database
--     to a result and a database, `atomic` of backend/app/db/transaction.py, and the database engine.
--     Db/Table: UPDATE and DELETE on a list. Db/Inversion: what a coroutine that returned has done.
--     Db/Checks: the lookups of backend/app/sales/service.py and backend/app/bookings/service.py
--     that guard a request (`_validate_customer`, `_validate_property`, `_validate_lead`).
--     Db/Growth: how a table grows while its rows follow a relation.
--   Bookings: backend/app/bookings/repository.py and service.py.
--   Sales: backend/app/sales/repository.py and service.py. `create_sale` is cut where the code's own
--     comments cut it: lock_sellable_property, lock_sale_booking, record_sale, convert_sale_booking,
--     close_previous_ownership, hand_over. Sales/Steps and Sales/Transaction say what each part has
--     done, Sales/Atomic, Sales/Ledger and Sales/Once what that comes to.
--   Ownerships: backend/app/ownerships/repository.py and service.py: ownership records, co-owners
--     and resale listings.
--   Crm: a data type of the requests that change state, `serve` for what one leaves behind, and the
--     histories that requests make.
--   Security: backend/app/core/permissions.py, backend/app/core/request_context.py,
--     backend/app/users/service.py and the loading of an identity in backend/app/users/repository.py.
--   Routers: the endpoints of backend/app/bookings/router.py, backend/app/sales/router.py and
--     backend/app/ownerships/router.py for a given context, with `require_permission` of
--     backend/app/auth/dependencies.py in front. Routers/Call names the endpoints that change state,
--     and Routers/Calls reduces a call to a request of Crm.
--   Roles: backend/app/roles: the repository, the service and the endpoints. Roles/Steps says what each
--     leaves behind, Roles/History what requests there are, in any order.
--   Events: `publish_event` of backend/app/events/publisher.py.
--   Agent: the queue of outbound calls. Agent/Transitions and Agent/Orchestrator are
--     backend/app/agent/orchestrator.py, Agent/Repository the statements of
--     backend/app/agent/repository.py on call jobs and follow-ups, Agent/Gateway
--     backend/app/agent/gateway.py, Agent/Tools backend/app/agent/tools/call_tools.py. Agent/Jobs says what
--     a later version of a job is, Agent/Logic how a chain of coroutines moves the table of
--     jobs, Agent/History what requests there are, in any order, Agent/Created,
--     Agent/Finished and Agent/Refused what single requests leave where the database refuses nothing.
--   Contacts: `normalize_phone` of backend/app/customers/schemas.py; Contacts/Numbers says which texts
--     are one number. Contacts/Resolver is backend/app/customers/resolver.py, with what other requests
--     commit between its statements as a parameter; Contacts/Leads is backend/app/leads/resolver.py.
--   Intake: backend/app/public_intake. Intake/RateLimit is the rate limiter, over a record of the two
--     commands that it sends to Redis; Intake/Repository and Intake/Service the enquiry, and
--     Intake/Enquiry what an accepted one leaves.
--   Webhooks: backend/app/webhooks/superfone/service.py and how router.py calls it; Webhooks/Kept
--     is on the steps of processing a delivery and Webhooks/Once on repeated deliveries.
--   Workers: backend/app/workers/call_scheduler.py over the call queue, with Agent/Eligible and
--     Agent/Order for `get_next_eligible_jobs` of backend/app/agent/orchestrator.py. A session of the
--     worker has an engine of its own, and says whether its commit is refused and what other requests
--     have committed before it. Workers/Rounds says, without the code's functions of the scheduler, what a
--     round may do.
--   Voice/Audio: backend/app/voice/audio.py, G.711 A-law, both tables and both frame conversions.
--   Scenarios: the theorems at concrete inputs.
--
-- How state is modelled. The database is a record of tables, a table a list of rows, newest first.
-- A statement that writes goes through `execute`, which asks the engine whether PostgreSQL refuses it: the
-- constraints, triggers, locks and lost connections of the database are that refusal, at any
-- statement and for any reason. New identifiers, the date and the time come from the engine too. The
-- engine is a parameter; what a theorem assumes of it is a hypothesis: that a primary key is unique, or
-- that a statement is not refused. What is assumed of Redis is the record Counts of Intake/Quota. A refused statement writes nothing;
-- what statements before it have written stays, unless `atomic` puts it back. A request that holds
-- row locks is one step: two requests at once are two steps in some order. `SKIP LOCKED` asks the engine
-- which rows another transaction holds. What Superfone answers to a dialling, the caller number
-- and the limit on concurrent calls are the record Telephony, a parameter.
--
-- Representations: UUIDs, dates, times and amounts of money are natural numbers, a nullable column an
-- option, a status the string that the code compares; free text is a list of character codes below
-- 256, so that white space and digits are those of Latin-1.
-- Subtraction does not occur on them. A query that expects one row at most (`one_or_none`) raises on
-- two, as SQLAlchemy does. A response is the row it is made of: the columns that a SELECT joins in
-- for display are left out, and so are log lines and the messages of errors, whose codes are kept. In
-- `raise_clean_error_for_write` the error text is searched as the code searches it. Sets of
-- permission codes are lists, read by membership alone.
--
-- Bounds: the codec's loops run over 256 bytes and 8 segments, and a frame of any length; 16-bit
-- wrap-around is written out. All functions are total by structural recursion, none has fuel.
--
-- The pre-call context of a call job is reduced to the lookup of its lead, which decides whether it can be
-- built; the code of a retryable error is kept without the outcome that the program appends; the
-- event payloads and the warming of the voice room are left out. A new job's limit is the model's
-- default of three attempts.
--
-- Not modelled: searches, lists and pages, which only read; the SQL of triggers and constraints
-- (supabase/migrations), which is no Python; tokens, language models, LiveKit, WhatsApp and other
-- services outside the program; the services of customers and leads, appointments and the callbacks
-- of WhatsApp. A commit that PostgreSQL refuses is modelled in Workers alone. The
-- rollback of the session that the framework makes after a request that raised outside `atomic` is not
-- modelled, except in Workers: a theorem on what a request leaves behind holds of the state before
-- that rollback. A dialling is a question to Telephony and leaves no trace of its own, so that
-- nothing here counts diallings: attempts are counted, in the column attempt_count.
pub mod Base
pub mod Core
pub mod Db
pub mod Security
pub mod Sales
pub mod Webhooks
pub mod Workers
pub mod Voice
pub mod Bookings
pub mod Ownerships
pub mod Crm
pub mod Roles
pub mod Routers
pub mod Contacts
pub mod Events
pub mod Intake
pub mod Agent
mod Scenarios
