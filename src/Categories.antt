-- ===== src/Categories.antt =====
-- Categories: worker/services/category-service.ts and worker/repositories/categories-repository.ts.
pub mod Tables
pub mod Statements
pub mod Service
pub mod Lists
mod Tests
