-- ===== src/Store.antt =====
-- The package internal/store: the PostgreSQL tables and the transactions on them. A transaction is
-- a function from the tables to new tables and a value, or to an error, which rolls it back. `now`
-- is the time at which the transaction began, which is what SQL's now() returns throughout it.
pub mod Tables
pub mod Queue
pub mod Evolution
pub mod Deliveries
pub mod Events
pub mod Endpoints
pub mod Stats
pub mod History
