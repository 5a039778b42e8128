-- ===== src/LangGraph.antt =====
-- agentship_langgraph/engine.py and models.py: turns of an agent on LangGraph. What LangGraph itself does is a
-- parameter where it is used.
pub mod Message
pub mod Models
pub mod Compiled
pub mod Stream
pub mod Turns
pub mod Build
pub mod Tracing
