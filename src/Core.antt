-- ===== src/Core.antt =====
-- The request engine, packages/core.
pub mod Engine
pub mod RunRequest
pub mod Cleanup
pub mod Stack
pub mod Flow
pub mod Timeout
pub mod Builder
pub mod Modes
pub mod Streamify
mod Tests
