-- ===== src/Core.antt =====
-- The Core modules under app/core.
pub mod RateLimit
pub mod Cache
pub mod Email
pub mod Realtime
pub mod Secrets
pub mod Storage
pub mod Role
pub mod Membership
