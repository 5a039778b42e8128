-- ===== src/Service.antt =====
-- agentship_service: the HTTP runtime service around the agents.
pub mod Problem
pub mod Gate
pub mod Tasks
pub mod Agents
pub mod RateLimit
pub mod Responses
