-- ===== src/Config.antt =====
-- internal/platform/server/config_grpc.go and the conversions of config_postgres.go.
pub mod State
pub mod Rows
pub mod Methods
pub mod Changes
pub mod Listings
pub mod Holds
pub mod Decisions
pub mod Proposals
pub mod Progress
pub mod Histories
pub mod Unnamed
pub mod Branches
pub mod Rulings
pub mod Submissions
pub mod Paging
pub mod Signatures
pub mod Tests
