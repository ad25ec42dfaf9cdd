-- ===== src/KeyRouter.antt =====
-- packages/ws-router and packages/cloudformation-router: routers by one key of the event.
pub mod Ws
pub mod Cloudformation
mod Tests
