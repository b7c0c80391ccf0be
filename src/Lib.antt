-- ===== src/Lib.antt =====
-- Postbag verification library: a model of the form backend's own logic, and theorems about it.
--
-- The program. A form posts a submission to the server (apps/server). The planner of packages/core
-- decides which routes deliver it; the rows of the deliveries wait in the database, from which a
-- worker claims them, sends them through an adapter and settles them, with retries. Around this
-- stand organizations with members and invitations, plans with grants and billing, and anonymous
-- sandboxes for a first try without an account.
--
-- The files.
--   Common: lists, texts, keys and counts over native numbers, shared by all parts. `keep`, `find`,
--     `modify` and `count_of` stand for `filter`, a query with `limit(1)`, `update … where` and `count()`.
--   Errors: packages/core/src/errors.ts. A thrown `PostbagError` is `err` of its code.
--   Json: JSON values, reads and assignments of properties, and `JSON.stringify`, as the next four use
--     them.
--   Template: packages/core/src/template.ts (Tokens, Parse, Render).
--   Submission: packages/core/src/submission.ts (ArrayKeys, Normalize).
--   Mapping: packages/core/src/mapping.ts (Apply, Validate).
--   Schema: packages/core/src/schema.ts, its drift (Drift) and its cache of compiled schemas (Compile).
--   Submit: apps/server/src/routes/submit.ts and lib/cors.ts. `decide` (Verdict) gives the status,
--     `admit` (Uploads) reserves room for files, `store_submission` (Store) is the transaction, which
--     plans by Routing and maps by Mapping, and `post` (Post) puts them together.
--   Idempotency: apps/server/src/middleware/idempotency.ts and lib/idempotency.ts. `idempotency`
--     stands before a handler that is an argument.
--   Authorization: packages/auth/src/scopes.ts (Scopes) and apps/server/src/middleware/requireOrg.ts
--     (RequireOrg). `authorize` is `require_org` with the `assert_scope` of a handler.
--   Core: packages/core/src/email.ts (Mailbox, Addresses), ids.ts (Identifiers, FreshIds) and
--     signing.ts (Signing, ConstantTime, Signatures).
--   Routing: packages/core/src/routing.ts. `plan_deliveries` is `planDeliveries`, `plan_route` is
--     `planRoute`, `digest_period_key` is `digestPeriodKey`.
--   Delivery: packages/core/src/backoff.ts, packages/db/src/deliveries.ts (`claim_deliveries`),
--     apps/server/src/worker/index.ts (`process_delivery` and what it calls) and the retry of
--     apps/server/src/routes/v1/deliveries.ts. It uses the types of Routing.
--   Members: apps/server/src/lib/scope.ts and lib/orgs.ts (Roles), routes/v1/members.ts (Changes) and
--     routes/v1/invitations.ts (Invitations). An acceptance compares mailboxes by Core.Mailbox.
--   Plan: apps/server/src/lib/plan.ts and lib/planUsage.ts (Limits), routes/v1/plan.ts and
--     routes/v1/planGrants.ts (Grants), the expiry sweep of worker/housekeeping.ts (Expiry) and
--     worker/billing.ts (Billing for one webhook, BillingQueue for the sweep).
--   RateLimit: apps/server/src/lib/rateLimit.ts. Pagination: lib/pagination.ts, with the query of the
--     list in routes/v1/deliveries.ts, which the other lists repeat.
--   Sandbox: packages/db/src/anonymousSandboxes.ts.
-- The other files of a folder hold proofs, and are named for what they prove; Tests has examples.
--
-- How code becomes definitions. A table is a list of rows with the columns that the logic reads; a
-- transaction or a handler is a function from the tables to the tables and an answer. Where a handler
-- checks outside the transaction that writes, the two halves are functions of their own, so that
-- other requests can be put between them. Times are milliseconds, identifiers and hashes, which are
-- compared only for equality, are numbers; texts are lists of UTF-16 code units. What the platform or
-- a library computes is an argument: HMAC-SHA-256, random bytes, the parts of a date in a time zone,
-- an adapter's answer, the validation by ajv, the object storage. A number of JSON is the text that
-- `String(n)` gives. What other requests do while one waits or is between its transactions is an
-- argument too, a function from tables to tables.
--
-- Bounds and fuel. `decimal_from` prints a number with the number itself as fuel, which exceeds its
-- digits. `random_value` runs over the blocks of random bytes that it is given; it returns when they
-- hold twelve bytes below the ceiling. `collect` follows cursors for as many requests as there are
-- rows, each of which shows one at least. A template is cut into tokens with its length as fuel, of
-- which each round takes a character; `parse` has one unit more than there are tokens, and
-- Template.Balance shows that it ends. The waiting of an upload goes round as often as its list of
-- rounds says, behind which the deadline has passed. The other loops are recursions over lists. Numbers are natural
-- numbers, as the counts and times of the program are; delays and tokens are computed exactly where
-- the program uses doubles. Creation times of lists are in microseconds.
--
-- Not modelled: the web application, the site, the command line, the MCP server and the SDK, which
-- call the server; the adapters for mail, Telegram and webhooks, which are input and output; the
-- schemas of requests; authentication by Better Auth; row-level security of the database. Of the
-- server, the reading of a submission's body, the spam score, the queries for the routes of a form,
-- streams, destinations, projects, digests and system webhooks are left out so far, and of packages/core
-- the inference of schemas. Error texts and hints are left out everywhere.
pub mod Common
pub mod Core
pub mod Errors
pub mod Idempotency
pub mod Json
pub mod Pagination
pub mod Mapping
pub mod RateLimit
pub mod Members
pub mod Plan
pub mod Routing
pub mod Template
pub mod Sandbox
pub mod Schema
pub mod Submit
pub mod Submission
pub mod Delivery
pub mod Authorization
