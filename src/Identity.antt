-- ===== src/Identity.antt =====
-- The login limits, Logout and the rotation of refresh tokens of internal/platform/server/identity_grpc.go.
pub mod State
pub mod Limits
pub mod Throttle
pub mod Tokens
pub mod Rotation
pub mod Logout
pub mod Departures
pub mod Tests
