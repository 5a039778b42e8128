-- ===== src/Runtime.antt =====
-- agentship/runtime.py: one turn of an agent through its middleware.
pub mod Turn
pub mod Hooks
pub mod Session
pub mod Nesting
