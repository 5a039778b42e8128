-- ===== src/Observability.antt =====
-- agentship/observability: the span tree of a turn, how it is recorded and how it is read.
pub mod Tree
pub mod Recorder
pub mod Heap
pub mod Rooted
pub mod Program
pub mod Entered
pub mod Steps
pub mod Refines
pub mod Exporters
pub mod Factory
pub mod Resolving
