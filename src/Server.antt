-- ===== src/Server.antt =====
-- The relay server's state (server/src/db.rs and the workers of server/src/main.rs).
pub mod Tables
pub mod Push
pub mod Ingest
pub mod Decide
pub mod Enroll
pub mod Outbox
pub mod Rows
pub mod Calls
pub mod Effects
pub mod Phase
pub mod Resolutions
pub mod Verdicts
pub mod Credentials
pub mod Owner
pub mod Answers
pub mod Draining
mod Tests
pub mod Retention
pub mod Activation
