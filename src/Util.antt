-- ===== src/Util.antt =====
-- The shared helpers, packages/util.
pub mod Cache
pub mod Internal
pub mod Omit
pub mod Client
pub mod SetToContext
