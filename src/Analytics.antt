-- ===== src/Analytics.antt =====
-- Analytics: worker/services/analytics-service.ts.
pub mod Transactions
pub mod Calendar
pub mod Totals
pub mod Breakdowns
pub mod Recurring
pub mod Periods
pub mod Views
pub mod Service
pub mod Repository
pub mod Route
mod Tests
