-- ===== src/Auth.antt =====
-- agentship/auth: who is calling, and what the caller may do.
pub mod Caller
pub mod Scopes
pub mod Grants
pub mod Providers
pub mod Composite
pub mod Identity
pub mod Jwt
