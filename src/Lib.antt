-- ===== src/Lib.antt =====
-- The money, session and customer core of the VaultChain API (Api/src), modelled as functions on
-- explicit tables, with the theorems that make it correct.
--
-- How the program fits together. A controller calls a service; a service reads and writes the tables
-- of PostgreSQL through Prisma, in interactive transactions where several writes belong together. A
-- posting (Api/src/modules/transactions/transactions.service.ts) claims an idempotency key, plans the
-- legs of its kind, and writes the transaction row, the two ledger entries and the balances in one
-- transaction with the completion of its key. A login (Api/src/modules/auth/auth.service.ts) ends in a
-- session with a refresh token or in an MFA challenge (Api/src/modules/mfa/mfa-challenge.service.ts). A
-- password reset has challenges of its own
-- (Api/src/modules/password-reset/password-reset-challenge.service.ts), opened by a second factor
-- (password-reset.service.ts beside it) or by an administrator's approval of a request
-- (password-reset-request.service.ts). The second factor of a login
-- (Api/src/modules/auth/mfa-login.service.ts) is a one-time password with a replay floor or a backup
-- code, and may leave a remembered device (Api/src/modules/mfa). Customers
-- (Api/src/modules/customers/customers.service.ts) are read masked (Api/src/common/util/mask.ts) and
-- written against a version.
--
-- Files.
-- Prelude and its children: Boolean tests, tables as lists of rows with find, update_where and
--   count_where for the queries, handlers that return or throw (Errors), integers, texts.
-- Ledger.Store, Plan, Execute, Post: the tables, planFor and the planners, executePlan, and post of
--   transactions.service.ts, function by function under their own names in snake case. Execute.Outcome
--   reads off what a posting that returns has checked and written. Invariant and its children: a
--   ledger is sound where wallet ids differ, every balance is the sum of its wallet's entries, no
--   customer wallet is overdrawn, each transaction has a debit and a credit of one amount, and no two
--   transactions share a key or an original; lemmas on what a posting changes. Safety, Idempotency,
--   Reversal, Transfers and Locks: what a request may do, what its key promises, reverse-once, the
--   effect of a transfer, and the order in which a posting asks for its locks.
-- Challenge.Token: the opaque tokens and isUuid (Api/src/common/util/uuid.ts). Challenge.Mfa and Reset:
--   the two challenge services; MfaSafety, ResetSafety and Mint: what they promise under every sequence
--   of calls.
-- Mask: Api/src/common/util/mask.ts.
-- Auth.Store, Session, Login, Refresh: auth.service.ts; Login.Lockout and FifthFailure,
--   and Refresh.Rotation: its proofs.
-- Access.Store: the tables of the second factors and of the resets beside those of Auth. Network,
--   BackupCodes, Devices, Factor, MfaLogin: ipPrefix, backup-code.service.ts,
--   remembered-device.service.ts, the check of a one-time password, mfa-login.service.ts. Reset and
--   Reset.Complete: password-reset.service.ts. Requests and its children File, Poll, Decide:
--   password-reset-request.service.ts. Manage: mfa-enrollment.service.ts and mfa-management.service.ts of
--   Api/src/modules/auth. Manage.Cleared, BackupCodes.Once, Devices.Remember, Factor.Floor,
--   MfaLogin.Safety, Reset.Credentials and Reset.Trust are their proofs. Requests.Machine is the
--   abstract life of a request; Requests.Writes the step relation of the table's writes; Moves, Held,
--   FourEyes and OneOpen are about those steps, and Filing, Polling, Deciding and Lifecycle about the
--   handlers.
-- Common.Uuid, Envelope, NationalId: Api/src/common/util/uuid.ts, common/crypto/envelope-codec.ts and
--   common/validation/is-turkish-national-id.ts; UuidOrder: the order and the form of the ids.
--   Canonical and AuditChain: common/audit/audit.service.ts; Canonical.Order and AuditChain.Evidence:
--   its proofs. The other models keep the audit rows that they write without the hashes.
-- Customers.Store, Read, Create, Update: customers.service.ts and kyc-transitions.ts; Versions: the
--   optimistic concurrency of update; States: the statuses that it leaves; Hiding: what a masked read
--   tells.
-- Scenarios: concrete requests to which the theorems are applied.
--
-- How the code is read. A table is a list of its rows, newest first; a query takes the rows that fit. A
-- handler is a function of the state that returns a result or an error with the state it leaves; a
-- transaction gives back the tables of its start where its body throws. Identifiers of rows are numbers
-- where only equality matters, and texts where their form is parsed. Every loop of the code is over a
-- list and is recursion on it, so no fuel is needed but in decimal, where a number has fewer digits than
-- its own value and one. Amounts are natural numbers and balances integers, as the columns are BIGINT;
-- the bound of BIGINT is not modelled. Times are milliseconds. Other requests run at the awaits outside
-- a transaction: Others, AuthOthers and RequestOthers say what they do to the tables there.
-- RequestOthers and AccessEnv.pending_index also tell what happens between the check and the insert of a
-- request, where the isolation of PostgreSQL is READ COMMITTED. poll, detail and decide take what others
-- do between their read of the request and their first write. Db.lock_log is not a table: it holds the
-- ids of the SELECT ... FOR UPDATE statements. Ids in tokens are compared as texts, where the database
-- compares uuid values: they are read as canonical, in lower case. toLowerCase and toUpperCase are those of
-- ASCII.
--
-- Parameters. The clock, UUIDs, random secrets, Argon2, SHA-256, the envelope encryption, JWT signing,
-- the driver's report of a UNIQUE violation, otplib's verification of one-time passwords, the decryption
-- of their secrets, UTF-8, and JSON.stringify of a primitive are arguments (Env, Crypto, AuthEnv,
-- AccessEnv, CustomerEnv, Utf8, Hashing).
-- AuthEnv.remembered is the answer of the remembered devices to a login, which Access.Devices computes.
--
-- Not modelled: the rendering of the items of reset requests, the QR code of an enrolment, wallet limits,
-- rate limiting, risk, RBAC and operators, analytics, delivery of notifications and events,
-- HTTP glue and configuration, and the Web application, which presents what the API decides.
pub mod Prelude
pub mod Ledger
pub mod Challenge
pub mod Mask
pub mod Auth
pub mod Access
pub mod Common
pub mod Customers
pub mod Scenarios
