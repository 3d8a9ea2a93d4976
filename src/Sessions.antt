-- ===== src/Sessions.antt =====
-- internal/platform/server/sessions_grpc.go and sessions_postgres.go.
pub mod State
pub mod Methods
pub mod Handlers
pub mod Visits
pub mod Lifecycle
pub mod Starts
pub mod Continues
pub mod Histories
pub mod Expiry
pub mod Stored
pub mod Tests
