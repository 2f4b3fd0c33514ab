-- ===== src/Process.antt =====
-- src/emulate.c: `processInstr`, the emulation of one instruction with what is captured for it.
pub mod Step
pub mod Arith
pub mod Moves
pub mod Stack
pub mod Jumps
pub mod Dispatch
pub mod JumpLaws
pub mod Known
pub mod Finish
pub mod Fold
pub mod StackSteps
pub mod PushPop
pub mod Compare
mod Tests
