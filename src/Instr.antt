-- ===== src/Instr.antt =====
-- The instructions of DBrew: include/priv/instr.h and src/instr.c.
pub mod Kinds
pub mod Mnemonics
pub mod Types
pub mod Registers
pub mod Operands
pub mod Copy
pub mod Build
pub mod Laws
mod Tests
