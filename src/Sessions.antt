-- ===== src/Sessions.antt =====
-- internal/service/verification_*.go with their two tables: verification sessions, the statuses of
-- plugins, and whether a login or a registration may go on.
pub mod Tables
pub mod Service
pub mod Status
pub mod Clearing
pub mod Requirements
pub mod Walk
pub mod Validation
pub mod Decision
pub mod Satisfied
pub mod Verdict
pub mod Rows
pub mod Met
pub mod Rounds
pub mod Progress
pub mod Cleared
pub mod Opened
pub mod Expired
