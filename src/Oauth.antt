-- ===== src/Oauth.antt =====
-- internal/service: tokens, and the grants of OAuth.
pub mod Token
pub mod Keys
pub mod Revoked
pub mod Stored
pub mod Refresh
pub mod Client
pub mod Authorization
pub mod Grants
pub mod Granting
pub mod Authorizing
pub mod Replay
pub mod Scopes
pub mod Clients
pub mod Secrets
