-- ===== src/Ledger.antt =====
-- internal/platform/server/ledger_grpc.go and ledger_postgres.go.
pub mod State
pub mod Env
pub mod Books
pub mod Methods
pub mod Persist
pub mod Steps
pub mod Mutation
pub mod Handlers
pub mod Device
pub mod Offline
pub mod Posting
pub mod Identifiers
pub mod Reconcile
pub mod Rules
pub mod Contract
pub mod Settles
pub mod Accepts
pub mod AcceptsDevice
pub mod Guarantees
pub mod Effect
pub mod Reachable
pub mod Outcomes
pub mod Repeats
pub mod Once
pub mod Authority
pub mod Connected
pub mod Deadlock
pub mod Balance
pub mod Report
mod Tests
