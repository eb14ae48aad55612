-- ===== src/Scenarios.antt =====
-- Concrete requests: runs of the handlers, and the theorems applied to them.
mod Postings
mod Reversals
mod Tokens
mod Accounts
mod Edits
mod Requests
mod Recovery
mod Ids
mod Audits
