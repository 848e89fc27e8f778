-- ===== src/Delivery.antt =====
-- The package internal/delivery: the data model, the retry policy and the management service.
pub mod Model
pub mod Policy
