-- ===== src/Wagering.antt =====
-- internal/platform/server/wagering_grpc.go and wagering_postgres.go.
pub mod State
pub mod Methods
pub mod Handlers
pub mod Rules
pub mod Lifecycle
