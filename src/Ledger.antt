-- ===== src/Ledger.antt =====
-- primitives/idempotency.py: the write-ahead ledger of tool calls and `call_once`.
-- A ledger is an interface (the protocol IdempotencyLedger); `DictLedger` implements it.
pub mod Entry
pub mod CallOnce
pub mod AtMostOnce
pub mod Replay
pub mod Key
