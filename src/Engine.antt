-- ===== src/Engine.antt =====
-- The generation of code from captured blocks: `generateBinaryFromCaptured` in src/engine.c, with
-- src/buffers.c.
pub mod Blocks
pub mod Place
pub mod Link
pub mod Spacing
pub mod Displacement
pub mod PlaceLaws
pub mod LinkLaws
pub mod Layout
pub mod LayoutLaws
pub mod Storage
pub mod Emit
pub mod Pass1
pub mod Pass1Ends
pub mod Emitted
pub mod Visit
pub mod Laid
pub mod Reach
pub mod Push
pub mod ReachSteps
pub mod ReachGenerates
pub mod Pass1Laws
pub mod Binary
pub mod View
pub mod Start
pub mod Whole
pub mod BinaryLaws
mod Tests
mod GenerateTests
