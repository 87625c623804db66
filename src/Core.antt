-- ===== src/Core.antt =====
-- app/core: audit capture, permissions and rate limiting.
pub mod Values
pub mod Audit
pub mod Permissions
pub mod Sla
pub mod RateLimit
