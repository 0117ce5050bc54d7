-- ===== src/Currency.antt =====
-- The conversion of transactions into the base currency
-- (worker/analytics/currency-conversion.ts).
pub mod Rounding
pub mod Rates
pub mod Conversion
mod Tests
