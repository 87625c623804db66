-- ===== src/Routes.antt =====
-- app/api/routes: the request handlers. A handler takes the request's environment, the database
-- and the parsed payload, and returns the database after its commit.
pub mod Access
pub mod Scoped
pub mod Tables
pub mod Events
pub mod Capas
pub mod Documents
pub mod Nested
pub mod Changes
pub mod Audits
pub mod Training
pub mod Alerts
