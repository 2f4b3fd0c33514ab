-- ===== src/Lib.antt =====
-- DBrew, a library that rewrites x86-64 machine code at run time.
--
-- The program decodes the instructions of a function (src/decode.c), emulates them on a state in
-- which every register, flag and stack byte is known or unknown (src/emulate.c), captures the
-- instructions whose results are unknown, encodes the captured ones into new code
-- (src/generate.c), and links the blocks of that code by jumps (src/engine.c). All parts share the instructions and operands of include/priv/instr.h and
-- src/instr.c.
--
-- - Prelude: Booleans and enumerations as C numbers them, failing computations, lists, and lemmas
--   on the bits of numbers.
-- - Instr: include/priv/instr.h and src/instr.c. Kinds, Mnemonics and Types hold the enumerations
--   and structures, Registers and Operands the queries, Copy and Build what writes operands and
--   instructions.
-- - Generate: the encoding of src/generate.c. Modrm is `calcModRMDigit` and `calcModRM`, Prefix
--   `genPrefix` and the functions that put an instruction together, Reduce the shortening of
--   immediates, Single and Arith the generators of single instructions, Block the code of a block.
-- - Decode: of src/decode.c, Modrm is `parseModRM`, Prefix `decodePrefixes` and `parseImm`, Handlers
--   the operand type by the prefixes and the handlers of operands in two-operand instructions.
-- - Codec: the generator and the decoder against each other.
-- - Memory: bytes by their addresses, with the loads, stores and copies of the emulator and the code
--   generation.
-- - Emulate: of src/emulate.c, Meta holds the capture states of values, State the emulator state
--   with its comparison and its copies, Saved the list of the saved states, Flags the flags of
--   subtractions, additions and bitwise operations, Stack the emulated stack, Operand the reads and
--   writes of registers, memory and operands.
-- - Capture: of src/emulate.c, Types holds the context (`RContext` with the part of `Rewriter` that
--   capturing works on), Blocks the captured blocks and instructions, Captured and Vector what is
--   captured for the kinds of instructions, Branch the end of a block at a conditional jump. A
--   pointer to a block or an instruction is its position in its array.
-- - Process: of src/emulate.c, `processInstr` and `processKnownTargets`. Arith, Moves, Stack and Jumps
--   hold the cases of the switch, Step what they share, Dispatch the switch. The depth of -1 at the
--   end of the function that is rewritten is a flag of the context (`returned`).
-- - Engine: `generateBinaryFromCaptured` in src/engine.c. Storage is src/buffers.c, Emit the loop of
--   `generate` with its effects, Pass1, Place and Link the three passes, Binary the whole function.
--   Passes 2 and 3 see the blocks (`GenCbb`) in the order of `genOrder`, where a pointer to a block is
--   its position; it is the view of a captured block (`Cbb`), whose pointers are positions in the
--   array of blocks. The code storage is assumed to be smaller than 2^31 bytes, so that a
--   displacement has 32 bits, and `genOrder` to have been empty before pass 1.
-- - Config: src/config.c. Ranges is the configuration with its list of memory ranges and functions,
--   Api the functions that change it.
--
-- A function keeps the name that it has in C, in snake case. A function that may fail an assertion
-- or reach undefined behaviour returns an option, none where it does. What C writes through a
-- pointer is a result; what stood there before is an argument, where the function keeps part of it.
-- Values of 64 bits are natural numbers below 2^64, with the wrap-around written out; loops recurse
-- on the list or the bytes that they read. Pass 1 of the code generation works on a stack and has
-- fuel: the length of the stack and twice the number of blocks that are not generated, and one.
--
-- Not modelled: the opcode tables of the decoder, the capturing loop and the optimization passes
-- (src/engine.c), the expression pool (src/expr.c), the printer, error texts, src/vector.c with
-- its snippets, and the LLVM backend.
pub mod Prelude
pub mod Instr
pub mod Generate
pub mod Decode
pub mod Codec
pub mod Emulate
pub mod Memory
pub mod Config
pub mod Engine
pub mod Process
pub mod Capture
