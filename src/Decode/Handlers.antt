-- ===== src/Decode/Handlers.antt =====
-- src/decode.c: the operand type of an opcode and the handlers of its operands.
use dbrew.Prelude.{ℕ, ◌/◌, ◌%◌, ◌^◌, bit_and, false, Option, none, some, ◌!=◌, if◌then◌else◌}
use dbrew.Prelude.{◌>>=◌}
use dbrew.Decode.Modrm.{Parsed, parse_modrm}
use dbrew.Decode.Context.{DContext, peek, sign_extend8}
use dbrew.Decode.Prefix.{parse_imm}
use dbrew.Instr.Kinds.{ValType, vt_8, vt_16, vt_32, vt_64}
use dbrew.Instr.Types.{Operand, ps_66}
use dbrew.Instr.Operands.{get_imm_op_type}

-- The operand type of an opcode without a type of its own (VT_Def in `processOpc`), by the prefixes.
unfoldable pub prefix_type : DContext → ValType
prefix_type c =
    let vt = if bit_and c.rex 8 != 0 then vt_64 else vt_32 in
    if bit_and c.ps ps_66 != 0 then vt_16 else vt

-- The digit that chooses the entry of a group of opcodes.
unfoldable pub group_digit : DContext → Option ℕ
unfolding peek
group_digit c = do b ← peek c; some (bit_and b 56 / 2 ^ 3)

-- `parseMR` and `parseRM`: the operand by ModRM is the first or the second one. What they give back
-- is `Parsed`, with that operand first.
unfoldable pub parse_mr : DContext → ValType → Operand → Operand → Option Parsed
unfolding parse_modrm
parse_mr c vt o1 o2 = parse_modrm c vt 0 o1 (some o2)

unfoldable pub parse_rm : DContext → ValType → Operand → Operand → Option Parsed
unfolding parse_modrm
parse_rm c vt o1 o2 = parse_modrm c vt 0 o2 (some o1)

unfoldable pub parse_mi :
    DContext → ValType → Operand → Operand → Option (Operand × Operand × DContext)
unfolding parse_modrm parse_imm
parse_mi c vt o1 o2 = do
  p ← parse_modrm c vt 0 o1 none
  (i, c') ← parse_imm p.cxt vt o2 false
  some (p.o1, i, c')

-- The sign extension of a byte to the operand type.
unfoldable pub extend_imm8_to : ValType → ℕ → Option ℕ
extend_imm8_to vt_64 n = some (sign_extend8 (n % 2 ^ 8))
extend_imm8_to vt_32 n = some (sign_extend8 (n % 2 ^ 8) % 2 ^ 32)
extend_imm8_to vt_16 n = some (sign_extend8 (n % 2 ^ 8) % 2 ^ 16)
extend_imm8_to _ n = none

unfoldable pub parse_mi_8se :
    DContext → ValType → Operand → Operand → Option (Operand × Operand × DContext)
unfolding parse_modrm parse_imm extend_imm8_to get_imm_op_type
parse_mi_8se c vt o1 o2 = do
  p ← parse_modrm c vt 0 o1 none
  (i, c') ← parse_imm p.cxt vt_8 o2 false
  v ← extend_imm8_to vt i.val
  t ← get_imm_op_type vt
  some (p.o1, record i { val = v; type = t }, c')
