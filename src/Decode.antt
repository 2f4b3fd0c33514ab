-- ===== src/Decode.antt =====
-- The decoder: src/decode.c.
pub mod Context
pub mod Modrm
pub mod Prefix
pub mod Handlers
