-- ===== src/HttpErrors.antt =====
-- HttpError of packages/util/index.js, and packages/http-error-handler/index.js.
pub mod Codes
pub mod Handler
pub mod Hiding
mod Tests
