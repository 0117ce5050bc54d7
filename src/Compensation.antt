-- ===== src/Compensation.antt =====
-- Compensation links between an expense and the incoming transactions that reimburse it: the use
-- cases of worker/services/compensation-service.ts, the statements of worker/repositories/
-- compensation-repository.ts, and the constraints and the trigger that the table carries
-- (migrations/0001_initial_schema.sql).
pub mod Tables
pub mod ExactSum
pub mod Score
pub mod Service
mod Tests
