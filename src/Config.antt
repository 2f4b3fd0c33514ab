-- ===== src/Config.antt =====
-- The configuration of a rewriter: src/config.c.
pub mod Ranges
pub mod Api
pub mod Laws
mod Tests
