-- ===== src/Tests.antt =====
-- Runs of the model and examples of its theorems.
mod Fixtures
mod DateTests
mod PermissionTests
mod EventTests
mod CapaTests
mod DocumentTests
mod DocumentRouteTests
mod RbacTests
mod RateLimitTests
mod TrainingTests
mod ChangeTests
mod AuditTests
mod NavTests
mod TrainingRouteTests
mod AlertTests
