-- ===== src/Process/Moves.antt =====
-- src/emulate.c, `processInstr`: moves and conversions.
use dbrew.Prelude.{ℕ, ◌-◌, ◌%◌, ◌^◌, bit_and, Bool, ◌||◌, Option, none, some, ◌==◌, ◌!=◌}
use dbrew.Prelude.{if◌then◌else◌, ◌>>=◌, ◌>>◌, assert, get_elem?, ◌is◌}
use dbrew.Emulate.Meta.{ms_is_static}
use dbrew.Emulate.Operand.{get_op_addr, get_op_value, set_reg_state, set_reg_val}
use dbrew.Emulate.State.{Cell, Flags}
use dbrew.Decode.Context.{sign_extend8, sign_extend32}
use dbrew.Instr.Kinds.{ValType, vt_8, vt_16, vt_32, vt_64, vt_128, vt_enum, OpType}
use dbrew.Instr.Kinds.{ot_imm8, ot_imm16, ot_imm32, ot_imm64, ot_reg8, ot_reg16, ot_reg32}
use dbrew.Instr.Kinds.{ot_reg64, ot_ind8, ot_ind16, ot_ind32, ot_ind64, ot_enum}
use dbrew.Instr.Mnemonics.{InstrType, it_cmovo, it_cmovno, it_cmovc, it_cmovnc, it_cmovz}
use dbrew.Instr.Mnemonics.{it_cmovnz, it_cmovs, it_cmovns}
use dbrew.Instr.Types.{Instr}
use dbrew.Instr.Operands.{op_val_type, op_is_ind}
use dbrew.Capture.Captured.{capture_mov, capture_cmov, ri_a, ri_d, capture_lea}
use dbrew.Capture.Blocks.{capture}
use dbrew.Capture.Types.{et_unsupported_operands, RContext}
use dbrew.Process.Step.{set_emulator_error, with_es, set_result, sign_extend16}

-- The type of a source of MOV and MOVSX.
unfoldable pub source_type : OpType → Option ValType
source_type ot_reg8 = some vt_8
source_type ot_ind8 = some vt_8
source_type ot_imm8 = some vt_8
source_type ot_reg16 = some vt_16
source_type ot_ind16 = some vt_16
source_type ot_imm16 = some vt_16
source_type ot_reg32 = some vt_32
source_type ot_ind32 = some vt_32
source_type ot_imm32 = some vt_32
source_type ot_reg64 = some vt_64
source_type ot_ind64 = some vt_64
source_type ot_imm64 = some vt_64
source_type _ = none

-- A value of type `src` as one of type `dst`; none where C asserts that it is not needed.
unfoldable pub extend_to : ValType → ValType → ℕ → Option ℕ
extend_to vt_8 vt_8 v = some v
extend_to vt_8 vt_16 v = some (sign_extend8 (v % 2 ^ 8))
extend_to vt_8 vt_32 v = some (sign_extend8 (v % 2 ^ 8))
extend_to vt_8 vt_64 v = some (sign_extend8 (v % 2 ^ 8))
extend_to vt_16 vt_16 v = some v
extend_to vt_16 vt_32 v = some (sign_extend16 (v % 2 ^ 16))
extend_to vt_16 vt_64 v = some (sign_extend16 (v % 2 ^ 16))
extend_to vt_32 vt_32 v = some v
extend_to vt_32 vt_64 v = some (sign_extend32 (v % 2 ^ 32))
extend_to vt_64 vt_64 v = some v
extend_to _ _ v = none

unfoldable pub process_mov : RContext → Instr → Option RContext
unfolding op_val_type get_op_value source_type extend_to capture_mov set_result set_emulator_error
process_mov r i = do
  dst_t ← op_val_type i.dst
  res ← get_op_value r.world i.src
  elim (source_type i.src.type) [
    | none ↦ some (set_emulator_error r et_unsupported_operands)
    | some src_t ↦ do
      v ← extend_to src_t dst_t res.val
      let res1 = if src_t is dst_t then res else record res { val = v; type = dst_t }
      r1 ← capture_mov r i res1
      set_result r1 res1 i.dst
  ]

-- The instruction is captured unless register A is known.
unfoldable pub capture_unless_a : RContext → Instr → Option RContext
unfolding capture ms_is_static
capture_unless_a r i = do
  a ← get_elem? r.world.es.regs ri_a
  if ms_is_static a.state then some r else capture r i

unfoldable pub process_cltq : RContext → Instr → Option RContext
unfolding set_reg_val capture_unless_a
process_cltq r i = do
  a ← get_elem? r.world.es.regs ri_a
  es ← set_reg_val r.world.es ri_a (sign_extend32 (a.val % 2 ^ 32))
  capture_unless_a (with_es r es) i

unfoldable pub process_cwtl : RContext → Instr → Option RContext
unfolding set_reg_val capture_unless_a
process_cwtl r i = do
  a ← get_elem? r.world.es.regs ri_a
  es ← set_reg_val r.world.es ri_a (sign_extend16 (a.val % 2 ^ 16))
  capture_unless_a (with_es r es) i

-- The value of register D that CQTO makes of register A.
unfoldable pub cqto_result : ValType → ℕ → Option ℕ
cqto_result vt_64 a = some (if bit_and a (2 ^ 30) != 0 then 2 ^ 32 - 1 else 0)
cqto_result vt_128 a = some (if bit_and a (2 ^ 62) != 0 then 2 ^ 64 - 1 else 0)
cqto_result _ a = none

unfoldable pub process_cqto : RContext → Instr → Option RContext
unfolding cqto_result set_reg_val set_reg_state capture_unless_a set_emulator_error
process_cqto r i = do
  a ← get_elem? r.world.es.regs ri_a
  elim (cqto_result i.vtype a.val) [
    | none ↦ some (set_emulator_error r et_unsupported_operands)
    | some d ↦ do
      es1 ← set_reg_val r.world.es ri_d d
      es2 ← set_reg_state es1 ri_d a.state
      capture_unless_a (with_es r es2) i
  ]

-- The flag that a conditional move reads, and whether it moves.
unfoldable pub cmov_condition : Flags → InstrType → Option (Cell × Bool)
cmov_condition f it_cmovz = some (f.zero_, f.zero_.val != 0)
cmov_condition f it_cmovnz = some (f.zero_, f.zero_.val == 0)
cmov_condition f it_cmovc = some (f.carry, f.carry.val != 0)
cmov_condition f it_cmovnc = some (f.carry, f.carry.val == 0)
cmov_condition f it_cmovo = some (f.overflow, f.overflow.val != 0)
cmov_condition f it_cmovno = some (f.overflow, f.overflow.val == 0)
cmov_condition f it_cmovs = some (f.sign, f.sign.val != 0)
cmov_condition f it_cmovns = some (f.sign, f.sign.val == 0)
cmov_condition f _ = none

unfoldable pub process_cmov : RContext → Instr → Option RContext
unfolding cmov_condition op_val_type get_op_value capture_cmov set_result
process_cmov r i = do
  (flag, cond) ← cmov_condition r.world.es.flags i.type
  s ← op_val_type i.src
  d ← op_val_type i.dst
  assert (s is d)
  res ← get_op_value r.world i.src
  (r1, res1) ← capture_cmov r i res flag.state cond
  if cond then set_result r1 res1 i.dst else some r1

unfoldable pub process_lea : RContext → Instr → Option RContext
unfolding op_is_ind get_op_addr capture_lea set_result
process_lea r i = do
  assert (i.dst.type is ot_reg32 || i.dst.type is ot_reg64)
  assert (op_is_ind i.src)
  a ← get_op_addr r.world.es i.src
  let res = if i.dst.type is ot_reg32 then record a { val = a.val % 2 ^ 32; type = vt_32 } else a
  (r1, res1) ← capture_lea r i res
  set_result r1 res1 i.dst
