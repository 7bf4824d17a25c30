-- ===== src/Sessions.antt =====
-- apps/web/src/server/admin/sessions.ts: customers and administrators revoke sessions.
pub mod Service
mod Selection
mod Customers
mod Revocation
mod Tests
