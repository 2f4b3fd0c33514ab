-- ===== src/Engine/Emit.antt =====
-- src/generate.c: `generate` with its effects, the bytes of a captured block in the code storage.
use dbrew.Prelude.{ℕ, ◌+◌, Option, none, some, List, [], ◌∷◌, ltb, ◌>>=◌, ◌>>◌, assert, length}
use dbrew.Prelude.{get_elem?, set}
use dbrew.Memory.{Memory, write}
use dbrew.Instr.Types.{Operand, Instr}
use dbrew.Capture.InstrLaws.{instrs_in}
use dbrew.Capture.Types.{em_generator, ErrorType, et_unsupported_instr, et_unsupported_operands}
use dbrew.Capture.Types.{Error, set_error, Cbb, RContext}
use dbrew.Generate.Single.{not_supported, generated}
use dbrew.Generate.Block.{one, unsupported_instr, gen_one}
use dbrew.Engine.Storage.{CodeStorage, reserve_code_storage, use_code_storage}

-- The stores of a generator to its buffer.
unfoldable pub write_bytes : Memory → ℕ → List ℕ → Memory
write_bytes m a [] = m
write_bytes m a (b ∷ bs) = write_bytes (write m a b) (a + 1) bs

-- The storage and the memory behind the instructions of a block with the bytes used for them, or an
-- error.
pub data Emission : Type 0 where
  emitted : CodeStorage → Memory → ℕ → Emission
  refused : ErrorType → Memory → Emission

-- The loop over the instructions, with `used` bytes so far. What an instruction that is refused has
-- stored behind the code before it is not kept.
unfoldable pub emit_from : Operand → List Instr → CodeStorage → Memory → ℕ → Option Emission
unfolding reserve_code_storage use_code_storage
emit_from junk [] cs m used = some (emitted cs m used)
emit_from junk (i ∷ rest) cs m used = do
  buf ← reserve_code_storage cs 15
  g ← gen_one junk i
  elim g [
    | unsupported_instr ↦ some (refused et_unsupported_instr m)
    | one not_supported ↦ some (refused et_unsupported_operands m)
    | one (generated bytes) ↦ do
      assert (ltb (length bytes) 15)
      (_, cs1) ← use_code_storage cs (length bytes)
      emit_from junk rest cs1 (write_bytes m buf bytes) (used + length bytes)
  ]

-- The members of `Rewriter` that the code generation works on, with the memory. `gen_order` has its
-- counted entries.
pub record GenState : Type 0 where
  pub context : RContext
  pub cs : CodeStorage
  pub gen_order : List ℕ
  pub memory : Memory
  pub generated_code_addr : ℕ
  pub generated_code_size : ℕ

-- The block at a position gets a new value.
unfoldable pub put_bb : GenState → ℕ → Cbb → GenState
put_bb g bb cbb = record g { context = record g.context { cap_bb = set g.context.cap_bb bb cbb } }

-- `generate` on the block at position `bb`, with its error if there is one. `addr` and `len` of its
-- instructions, which only the printer reads, are left out; `addr1` is then the start of the free
-- part for a block without instructions too.
unfoldable pub generate_block : GenState → ℕ → Option (Option Error × GenState)
unfolding emit_from instrs_in put_bb
generate_block g bb = do
  cbb ← get_elem? g.context.cap_bb bb
  buf0 ← reserve_code_storage g.cs 0
  r ← emit_from g.context.junk.dst (instrs_in g.context.cap_instr cbb) g.cs g.memory 0
  some (elim r [
    | refused et m ↦ (
      some (set_error et em_generator),
      put_bb (record g { memory = m }) bb (record cbb { size = none }),
    )
    | emitted cs m used ↦ (
      none,
      put_bb (record g { cs = cs; memory = m }) bb (record cbb { size = some used; addr1 = buf0 }),
    )
  ])
