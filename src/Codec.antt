-- ===== src/Codec.antt =====
-- The generator and the decoder against each other: src/generate.c and src/decode.c.
pub mod Disp
pub mod Base
pub mod Absolute
pub mod Parse
pub mod ParseSib
pub mod Address
pub mod Memory
pub mod RoundTrip
pub mod Emitted
pub mod Instruction
pub mod Immediate
pub mod Forms
pub mod Generators
pub mod TwoOperands
pub mod Registers
pub mod Prefixes
pub mod Vex
pub mod PrefixRoundTrip
pub mod Immediates
mod Tests
