-- ===== src/Hook/Tests.antt =====
-- Tests of the hook's model, and the theorems at concrete inputs.
mod Revocation
mod Verdicts
