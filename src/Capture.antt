-- ===== src/Capture.antt =====
-- Capturing instructions into basic blocks: src/emulate.c.
pub mod Types
pub mod Blocks
pub mod Keys
pub mod BlockLaws
pub mod Segments
pub mod InstrLaws
pub mod Refinement
pub mod Captured
pub mod Branch
pub mod Queue
pub mod Vector
pub mod Neutral
mod Tests
