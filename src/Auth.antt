-- ===== src/Auth.antt =====
-- internal/services/auth: users, API keys, roles and revoked tokens.
pub mod Listing
pub mod ApiKeys
pub mod Blacklist
pub mod Rbac
pub mod Tokens
pub mod Users
