-- ===== src/Sync.antt =====
-- Transaction synchronization: which statement window to read next (worker/services/
-- transaction-sync-window.ts), the tables and their statements (worker/repositories/
-- transaction-sync-repository.ts), the provider client's request check (worker/monobank/client.ts)
-- and the use case that ties them together (worker/services/transaction-sync-service.ts).
pub mod Window
pub mod Tables
pub mod Claim
pub mod Import
pub mod Service
mod WindowTests
mod Tests
