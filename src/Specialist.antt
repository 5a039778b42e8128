-- ===== src/Specialist.antt =====
-- primitives/dispatch.py, primitives/retry.py and primitives/conflict_resolver.py: a turn fanned out
-- to specialists, the retry decision, and the merge of their answers.
pub mod Values
pub mod Dispatch
pub mod Retry
pub mod Conflict
