-- ===== src/Access.antt =====
-- apps/web/src/server/auth: who a request comes from and what they may do.
pub mod Model
pub mod Session
pub mod Repository
pub mod Service
pub mod Guards
pub mod Dto
pub mod Entitlement
pub mod Guarantees
pub mod Customers
mod Tests
