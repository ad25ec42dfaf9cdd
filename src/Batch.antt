-- ===== src/Batch.antt =====
-- packages/event-batch-handler and packages/event-batch-response.
pub mod Handler
pub mod Fifo
pub mod Source
pub mod Response
pub mod Hooks
pub mod Reporting
pub mod Pool
pub mod Workers
mod Tests
mod ResponseTests
