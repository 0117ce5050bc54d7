-- ===== src/Corrections.antt =====
-- Corrections of an imported transaction: an adjusted amount, and its exclusion from the analytics
-- (worker/services/transaction-correction-service.ts, worker/repositories/
-- transaction-corrections-repository.ts).
pub mod Tables
pub mod Service
mod Tests
