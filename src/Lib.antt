-- ===== src/Lib.antt =====
-- A model of the core of the backhaus-ai backend: a service that runs AI agents for a restaurant
-- over a queue of jobs kept in Postgres, and the stock and purchasing records that people and
-- agents change.
--
-- The parts, and the files that model them:
--   Base          names shared by all files: Boolean tests, lists, tables as lists of rows (Tables,
--                 Lookup), the error type and result monad of src/error.rs (Result), integers, JSON
--                 as data, and the text functions that the code calls.
--   Store         the database as one record of tables, from migrations/ (Runs, Orders, Stock),
--                 and the tables of the outreach (Outreach).
--   Jobs          src/jobs.rs: `enqueue`, `enqueue_system`, `active`, `heartbeat`, `event`; Claim:
--                 `claim`, `claim_in_lane`; Control: `finish`, `control`, `release`, `release_for`.
--   Conversations src/conversations.rs: `archive`, `bounded_history` (History).
--   ScopedAgents  src/scoped_agents.rs: `control`, which pauses and resumes the procurement jobs;
--                 Checks: `heartbeat`, `disconnect`, `check_one`. Once, Rounds, Reviews: what holds.
--   Runtime       src/runtime.rs: a cycle of `monitors`, which beats and runs two rounds of checks.
--   Queue         what holds of the three parts above together: the step relation of their calls
--                 on the queue, its invariants, the lifecycle diagram, and the fencing of workers.
--   Decimal       `rust_decimal::Decimal` and NUMERIC as a mantissa and a scale. The operations of
--                 the crate are a parameter, a record with laws; Exact is one that meets the laws.
--   Purchasing    src/purchasing.rs: `policy`, `approval_reason`, `decide`, `decide_versioned`;
--                 Packs: `packs_to_order`. `prepare_drafts` in four files: Lines (the lines of an
--                 order, the statements), Shortages (the items below par, by vendor), Drafts (the
--                 drafts, and the statements on one order), Check (the loop over the vendors and the
--                 withdrawals); Findings: the value it returns. History: checks and decisions in any
--                 order, as a step relation. Reviews: `record_review`.
--   Inventory     src/inventory.rs: `record` as `record_movement`, and the stock status that
--                 src/tables.rs computes in SQL (Balance).
--   Vendors       src/vendors.rs: the input checks; Records: `create`, `update`; Rules: `assign`,
--                 `unassign`, `unassign_versioned`; Policies: `update_policy`.
--   Sessions      src/auth.rs: the login, its sessions and the requests on them.
--   Worker        src/worker.rs: the messages to and from the worker process, `send`, `next`,
--                 `abort_run`, the reader and the handshake of `spawn`.
--   Settings      src/settings.rs: `get` and `save`, over a table of its own. The insert and the update of a
--                 save are two statements; the update tests the version itself.
--   Outreach      src/outreach.rs: the database with the threads and messages (`Office`), `detail`;
--                 Enquiries: `create_enquiry`; Replies: `ingest`, `draft_reply`; Reviews: `review`;
--                 Sending: the two transactions of `send_email`; Ending: `discard`,
--                 `candidate_action`, `whatsapp`; Mail: `sync`; Processing: `process_replies`. Stages
--                 is the specification of the life of a message; Follows, Rows, Concluding, Sends and
--                 Opens show that each call keeps to it;
--                 Steps has the calls as a relation, History what holds of every history,
--                 Refusals what is refused, Senders which mails are stored.
--
-- How code and model correspond. A handler is one function from the arguments and the database to
-- its answer and the new database. It runs in one transaction whose row locks serialise it with the
-- calls that touch the same rows, so a call is one atomic step, and an interleaving of calls is a
-- sequence of steps. The look at the names when a supplier is created or edited takes no lock; there
-- the state that is seen and the state that is written are two arguments. An early return of an error drops the transaction, so an error carries no
-- database. A statement is a row function and a row test over a table (`update_rows`, `find_row`).
-- What the code draws from outside is an argument: the time `now` in microseconds, new identifiers
-- and leases. Identifiers that are UUIDs are numbers.
--
-- A send of mail is two steps, since the provider is called between its transactions; any call may
-- stand between them, and the provider's answer may come at any time after the post or never.
--
-- Bounds. Every loop is a recursion on a list, so no fuel is used; the cycle of the monitors has the
-- two rounds that the code gives it. Counters that are i32 or i64 in
-- the code are natural numbers without a bound. The laws of decimals speak of quantities up to ten
-- to the ninth with three decimals; the code accepts quantities up to a million. The theorems on
-- balances and packs carry that bound as a hypothesis.
--
-- Not modelled: errors of the database itself, the texts of errors, logging, columns that no
-- modelled statement uses. Where a query leaves the order of equal rows open, the model takes the
-- first. JSON numbers are their printed text. The provider of mail, SHA-256, lower case, the
-- parser of identifiers, the encoding of a query, the parser of URIs, the collation of
-- names and the printing of numbers are parameters, and so is what the query of `sales_check` finds.
-- The process of a worker is what it writes: a list of messages, for `abort_run` those that arrive in
-- its five seconds. A BTreeMap is a list in the order of its keys. The triggers of the
-- migrations that count the revisions of the data are left out.
-- Research and the demo dataset also write to the queue; they are not modelled, so the histories of the
-- queue are those of the job queue, the conversations and the scoped agents.
-- The pages and lists that only read are left out. The approval of a candidate is modelled in what it
-- writes when the send fails. The other files of src/ (research, the
-- agent tools, reports, import, the HTTP routes) are not part of this development.
pub mod Base
pub mod Store
pub mod Jobs
pub mod Conversations
pub mod ScopedAgents
pub mod Queue
pub mod Decimal
pub mod Purchasing
pub mod Inventory
pub mod Vendors
pub mod Settings
pub mod Sessions
pub mod Worker
pub mod Runtime
pub mod Outreach
