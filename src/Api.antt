-- ===== src/Api.antt =====
-- internal/api: the HTTP interface over the services.
pub mod Views
pub mod Replies
pub mod Handlers
pub mod Routing
pub mod Recorder
pub mod AccessLog
pub mod Commits
pub mod Token
pub mod Effects
pub mod Safety
pub mod Statuses
