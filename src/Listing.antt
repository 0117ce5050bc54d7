-- ===== src/Listing.antt =====
-- The list of transactions: worker/repositories/transactions-repository.ts, worker/services/
-- transaction-query-service.ts and worker/routes/transaction-list.ts.
pub mod Rows
pub mod Search
pub mod Query
pub mod Parse
pub mod Filters
mod Tests
