-- ===== src/Protocol/Tests.antt =====
-- Tests of the protocol crate's model, and the theorems at concrete inputs.
mod Records
mod Requests
mod Ceremonies
mod Enrollments
mod Tools
mod Sockets
mod Terminals
