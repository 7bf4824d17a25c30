-- ===== src/Documents.antt =====
-- The CMS documents: apps/web/src/server/documents.
pub mod Model
pub mod Repository
pub mod Service
pub mod Steps
pub mod Routes
pub mod Inversion
pub mod Publication
pub mod Drafts
pub mod Commands
pub mod Guarantees
pub mod Calls
pub mod Publishing
mod Tests
