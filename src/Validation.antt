-- ===== src/Validation.antt =====
-- packages/util/index.js: `validateOptions`, which every middleware checks its options with.
pub mod Rules
pub mod Types
pub mod Steps
pub mod Check
pub mod Accepted
pub mod OneOf
mod Tests
