-- ===== src/Accounts.antt =====
-- internal/service/user.go and auth_*.go: the users, signing in, registering and signing out.
pub mod Users
pub mod Passwords
pub mod Login
pub mod Register
pub mod Admitted
pub mod Registered
pub mod Tokens
pub mod SignedOut
pub mod Validation
pub mod Validated
