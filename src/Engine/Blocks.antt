-- ===== src/Engine/Blocks.antt =====
-- include/priv/common.h and src/engine.c: the captured blocks as the code generation sees them.
use dbrew.Prelude.{ℕ, ◌+◌, ◌-◌, ◌%◌, ◌^◌, Bool, ◌||◌, Option, none, some, ltb}
use dbrew.Emulate.FlagBits.{diff}
use dbrew.Instr.Mnemonics.{InstrType, it_jo, it_jno, it_jc, it_jnc, it_jz, it_jnz, it_jbe}
use dbrew.Instr.Mnemonics.{it_ja, it_js, it_jns, it_jp, it_jnp, it_jl, it_jge, it_jle, it_jg}

-- The members of `CBB` that the last two passes use. The blocks stand in a list in the order of
-- `genOrder`, and a pointer to a block is its position there, or none for null.
pub record GenCbb : Type 0 where
  pub count : ℕ
  pub end_type : InstrType
  pub next_branch : Option ℕ
  pub next_fall_through : Option ℕ
  pub size : ℕ
  pub addr1 : ℕ
  pub addr2 : ℕ
  pub gen_jcc8 : Bool
  pub gen_jump : Bool

-- `int diff = a - b` of two addresses, as a 32-bit pattern.
unfoldable pub diff32 : ℕ → ℕ → ℕ
diff32 a b = (a + 2 ^ 64 - b) % 2 ^ 64 % 2 ^ 32

-- `(diff > -lo) && (diff < hi)`.
unfoldable pub between : ℕ → ℕ → ℕ → Bool
between lo hi diff = ltb diff hi || ltb (2 ^ 32 - lo) diff

-- The condition code of a conditional jump: the offset of its opcode from 70 and 0F 80.
unfoldable pub jcc_code : InstrType → Option ℕ
jcc_code it_jo = some 0
jcc_code it_jno = some 1
jcc_code it_jc = some 2
jcc_code it_jnc = some 3
jcc_code it_jz = some 4
jcc_code it_jnz = some 5
jcc_code it_jbe = some 6
jcc_code it_ja = some 7
jcc_code it_js = some 8
jcc_code it_jns = some 9
jcc_code it_jp = some 10
jcc_code it_jnp = some 11
jcc_code it_jl = some 12
jcc_code it_jge = some 13
jcc_code it_jle = some 14
jcc_code it_jg = some 15
jcc_code _ = none
