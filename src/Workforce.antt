-- ===== src/Workforce.antt =====
-- apps/web/src/server/admin/users.ts: the accounts of the workforce.
pub mod Model
pub mod Repository
pub mod Service
mod Scope
mod Writes
mod Guards
mod Operations
pub mod Mutations
mod Privileges
mod Refusals
mod Lockout
mod Effects
mod Tests
