-- ===== src/Supervisor.antt =====
-- agentship_langgraph/templates/graph_supervisor.py and graph_config.py: the supervisor's nodes, the
-- conditional edges, and the graph that they form.
pub mod Nodes
pub mod Graph
pub mod Measure
pub mod Invariant
pub mod Termination
pub mod Derive
pub mod LaterTurns
