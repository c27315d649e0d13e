-- ===== src/Hook.antt =====
-- The hook (hook/src), which runs as root under sudo and decides whether a command may run.
pub mod Registry
pub mod Verdict
mod Tests
