-- ===== src/Benchmarks.antt =====
-- services/api/aries_api/benchmarks.py
pub mod Registry
pub mod Encoding
pub mod Catalog
pub mod Execute
pub mod Rows
pub mod Pair
pub mod Keeps
pub mod Atomic
pub mod Completed
pub mod Read
pub mod Errors
pub mod Tests
