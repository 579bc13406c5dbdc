-- ===== src/Tests.antt =====
-- Runs of the models on small inputs, and each theorem at an input that meets its hypotheses.
mod Engine
mod Rules
mod Audit
mod Plugin
mod Codes
mod Oauth
mod Grants
mod Access
mod Sessions
mod Accounts
mod Manager
mod Clients
mod Starts
mod UserConfig
mod Validated
