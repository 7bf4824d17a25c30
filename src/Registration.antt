-- ===== src/Registration.antt =====
-- apps/web/src/server/registration: customers register, and staff approve or reject them.
pub mod Model
pub mod Validation
pub mod Audit
pub mod Repository
pub mod Service
pub mod Limiter
pub mod Queries
pub mod Calls
mod Pages
mod Items
mod Listing
mod Steps
mod Choices
mod Organizations
mod Outcomes
mod Submission
mod Review
mod Finality
mod Approval
mod Tests
