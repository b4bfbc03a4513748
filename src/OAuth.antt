-- ===== src/OAuth.antt =====
-- The OAuth authorization server of services/server/src/oauth: its tables, its store and its
-- service.
pub mod Records
pub mod Store
pub mod Tokens
pub mod Scope
pub mod Service
pub mod History
pub mod Grants
