-- ===== src/Tests.antt =====
-- Runs of the model on known inputs, and the theorems at concrete inputs.
mod Go
mod Patterns
mod Samples
mod Rules
mod Matching
mod Pending
mod Approval
mod Bypass
mod Sessions
mod Registry
mod Middleware
mod Ingest
mod Credentials
mod Conversation
mod Endpoints
mod Resolvers
mod Transactions
