-- ===== src/Roles.antt =====
-- apps/web/src/server/admin/roles.ts: the permissions of the roles of the workforce.
pub mod Service
mod Holders
mod Guards
mod Links
mod Tests
