-- ===== src/Headers/Cors.antt =====
-- packages/http-cors/index.js
pub mod Origins
pub mod Matching
pub mod Options
pub mod Modify
pub mod Hooks
pub mod Frame
pub mod Allowed
pub mod Pairing
pub mod Credentials
pub mod Depending
pub mod Listing
pub mod Varying
pub mod Preflight
mod Tests
