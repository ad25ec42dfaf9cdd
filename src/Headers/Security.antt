-- ===== src/Headers/Security.antt =====
-- packages/http-security-headers/index.js
pub mod Defaults
pub mod Policies
pub mod Hooks
pub mod Placing
mod Tests
