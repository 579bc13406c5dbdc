-- ===== src/Lib.antt =====
-- Lauth, an identity and authorisation service in Go: a model of its core and what holds of it.
--
-- The parts, and the files that model them:
-- * The rule engine, pkg/engine: Engine and its children. Value has the dynamic values and
--   `compareValues` of parser.go, Expression the `Evaluate` methods, Parser the parser, and
--   Evaluate `EvaluateRule`, `Execute` and the loop of `Evaluate`. Satisfies and Semantics say
--   when the code takes a condition to hold, Documented compares that with what the comments of
--   internal/model/rule.go say, Decision and Operators prove what follows.
-- * The rules' storage: Rules. Repository is internal/repository/rule.go over two tables, Cache
--   is pkg/engine/cache.go with `LoadRules` and `Evaluate` of engine.go, Service is
--   internal/service/rule.go.
-- * The audit log, internal/audit: Audit. Log is model.go, HashChain is hash_chain.go, Writer is
--   writer.go and Reader is reader.go, by the names of their functions. Tamper, Interleaved,
--   Indexing, Query and Reading prove what the chain guarantees, what the writer leaves behind and
--   what the reader finds.
-- * Plugins, internal/plugin and internal/plugin/types: Plugin. State is state.go, Base the
--   operations of base.go and Execute its `Execute`; Lifecycle, Loading, Cycle and Balance prove
--   what they do. Exemption is the manager of exemption.go, and Exempted proves which rule grants.
--   Manager and Management are internal/plugin/manager.go with
--   internal/repository/plugin_config.go, and Registry is internal/plugin/registry.go; Managed,
--   Removed and Configured prove what is removed and that nothing can be saved. UserConfig and UserUpdate
--   are internal/plugin/user/user_config_service.go and OwnConfig is
--   internal/plugin/verification/user_config_manager.go, with the rows of user configurations;
--   UserSaved and OwnSaved prove who sees what is saved.
-- * Proof of an address, internal/plugin/verification: Codes. CodeManager is code_manager.go and
--   LinkManager is link_manager.go; Slots and OneTime show what codes are accepted, Digits what
--   they look like, and Links which session a link gives.
-- * Tokens and OAuth, internal/service: Oauth. Token is token.go, Authorization and Grants are
--   `Authorize` and `IssueToken` of authorization.go over the table of codes in Client
--   (internal/repository/authorization_code.go). Revoked, Stored, Refresh, Authorizing, Granting,
--   Replay and Scopes prove what tokens are accepted and what is granted. Clients is oauth_client.go over
--   the tables of clients and secrets, and Secrets proves how long a secret lets a client in.
-- * Administration, internal/service: Access. SuperAdmins is super_admin.go, Roles is role.go and
--   Permissions is permission.go, each with its repository, over shared tables of roles and
--   permissions; FirstStart is CheckAndInitSuperAdmin, which creates a user of Accounts. LastAdmin,
--   SystemRoles, Locked, Permitted, Gathered, Granted and Started prove what stays, who has a
--   permission, and what a new installation ends with.
-- * Verification sessions, internal/service/verification_*.go: Sessions. Tables has the two
--   tables and their queries (internal/repository/verification_session_postgres.go and
--   plugin_status_postgres.go); Service is verification_session.go, Status and Clearing are
--   verification_status.go, Requirements, Walk and Validation are verification_plugin.go, which
--   asks the plugin manager through the record Manager. Verdict, Progress, Opened, Cleared and
--   Expired prove what they decide and keep, with Decision, Satisfied, Rows, Met and Rounds.
-- * Accounts, internal/service: Accounts. Users is user.go with internal/repository/user.go and
--   the hooks of internal/model/user.go, Login and Register are auth_account.go, Tokens is
--   auth_token.go and Validation is auth_validation.go. They work on the tables, the sessions, the
--   administrators, the tokens and the rules of the parts above. Passwords, Admitted, Registered,
--   SignedOut and Validated prove whom they let in.
--
-- Choices. Numbers are the native ones; Go's int is an integer with no bound, since the code only
-- compares the ints that are modelled here. A double is its bit pattern. Times and durations are
-- numbers of nanoseconds (of seconds in Sessions and Accounts), and the clock is an argument or a
-- field of the state. The database and Redis are tables and maps whose calls may fail; what the
-- code formats, sends or draws at random is a parameter. Loops are structural recursion, so no
-- fuel is needed. The database lists rows in an order that is a parameter where no order is asked
-- for, and a fresh uuid is the id of no row. A call of a service is one step; calls that run at
-- once are modelled where a theorem says so.
--
-- Not modelled: the HTTP layer (api/v1, pkg/router, pkg/middleware), logging, configuration,
-- connections and wiring (pkg/logger, pkg/config, pkg/database, internal/boot) and the tools,
-- which are input and output; ID tokens (internal/service/oidc.go), which third-party libraries
-- sign; and the service container, the TOTP and email plugins, applications, profiles and files,
-- which the parts above do not call.
pub mod Access
pub mod Accounts
pub mod Audit
pub mod Codes
pub mod Engine
pub mod Oauth
pub mod Plugin
pub mod Prelude
pub mod Rules
pub mod Sessions
pub mod Tests
