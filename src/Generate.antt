-- ===== src/Generate.antt =====
-- The code generator: src/generate.c.
pub mod Context
pub mod Modrm
pub mod Prefix
pub mod Reduce
pub mod Single
pub mod Arith
pub mod Block
