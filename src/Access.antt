-- ===== src/Access.antt =====
-- internal/service: super administrators, roles, and who has a permission.
pub mod SuperAdmins
pub mod LastAdmin
pub mod Roles
pub mod SystemRoles
pub mod Locked
pub mod Permitted
pub mod Permissions
pub mod Gathered
pub mod Granted
pub mod FirstStart
pub mod Started
