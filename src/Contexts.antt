-- ===== src/Contexts.antt =====
-- packages/core/index.js and packages/util/index.js: the contexts of nested requests, as objects
-- with prototypes on a heap.
pub mod Heap
pub mod Requests
pub mod Inner
pub mod Isolation
pub mod Inheritance
mod Tests
