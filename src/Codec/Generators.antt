-- ===== src/Codec/Generators.antt =====
-- The generators of single instructions, read by the decoder.
use dbrew.Instr.Kinds.{vt_enum}
use dbrew.Instr.Types.{Instr}
