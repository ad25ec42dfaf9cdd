-- ===== src/HttpRouter.antt =====
-- packages/http-router/index.js.
pub mod Regexp
pub mod Compile
pub mod Routes
pub mod Event
pub mod Dispatch
pub mod Matching
pub mod Completeness
pub mod Prefilter
pub mod Counting
pub mod Compiling
pub mod Encoding
pub mod Registering
pub mod Dispatching
mod Tests
