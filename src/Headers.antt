-- ===== src/Headers.antt =====
-- The hooks on request and response headers.
pub mod Fields
pub mod Cors
pub mod Security
pub mod Negotiation
