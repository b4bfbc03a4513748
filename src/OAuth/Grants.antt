-- ===== src/OAuth/Grants.antt =====
-- What the token endpoint and the token check of services/server/src/oauth/service.ts grant.
pub mod Exchange
pub mod Refresh
pub mod Access
pub mod Issue
