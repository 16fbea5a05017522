-- ===== src/Storage.antt =====
-- python-glue/unified_ai/storage/: the tables of the back ends, and the cost tracker over them.
pub mod Accounts
pub mod Costs
pub mod Audit
pub mod Postgres
