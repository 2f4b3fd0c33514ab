-- ===== src/Emulate.antt =====
-- The capturing emulator: src/emulate.c.
pub mod Meta
pub mod State
pub mod Equality
pub mod Saved
pub mod SaveRestore
pub mod SaveLaws
pub mod Flags
pub mod FlagBits
pub mod FlagLaws
pub mod StateLaws
pub mod Stack
pub mod StackLaws
pub mod StackRoundTrip
pub mod Operand
pub mod OperandLaws
pub mod RegisterLaws
mod Tests
