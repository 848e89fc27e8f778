-- ===== src/Webhook.antt =====
-- internal/webhook: posting a delivery to its endpoint, and only to addresses that are allowed.
pub mod Netip
pub mod Dialer
pub mod Dispatcher
