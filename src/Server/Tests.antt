-- ===== src/Server/Tests.antt =====
-- Runs of the store on small examples.
mod Example
mod Store
mod Worker
mod Pushes
