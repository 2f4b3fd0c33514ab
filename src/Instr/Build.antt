-- ===== src/Instr/Build.antt =====
-- src/instr.c: building instructions in place. The first argument is what stood there.
use dbrew.Prelude.{ℕ, ◌%◌, Option, none, some, List, ◌==◌, if◌then◌else◌, ◌>>=◌, ◌>>◌, assert}
use dbrew.Prelude.{set, ◌is◌}
use dbrew.Instr.Kinds.{ValType, vt_none, vt_enum, ot_none, of_0}
use dbrew.Instr.Kinds.{of_1, of_2, of_3, VexPrefix, OperandEncoding}
use dbrew.Instr.Kinds.{StateChange}
use dbrew.Instr.Copy.{copy_operand}
use dbrew.Instr.Mnemonics.{InstrType}
use dbrew.Instr.Types.{Operand, Instr}
use dbrew.Instr.Operands.{op_val_type, op_is_imm}

unfoldable pub init_simple_instr : Instr → InstrType → Instr
init_simple_instr i it = record i {
  addr = 0;
  len = 0;
  type = it;
  pt_len = 0;
  vtype = vt_none;
  form = of_0;
  dst = record (i.dst) { type = ot_none };
  src = record (i.src) { type = ot_none };
  src2 = record (i.src2) { type = ot_none };
  info_mem_addr = none;
}

unfoldable pub init_unary_instr : Instr → InstrType → Operand → Option Instr
unfolding init_simple_instr copy_operand
init_unary_instr i it o = do
  let i' = init_simple_instr i it
  d ← copy_operand i'.dst o
  some (record i' { form = of_1; dst = d })

-- The assertions of `initBinaryInstr` on an explicit value type.
unfoldable pub binary_types_ok : ValType → Operand → Operand → Option (Unit {0})
unfolding op_val_type op_is_imm
binary_types_ok vt o1 o2 = if vt is vt_none then some tt else do
  t1 ← op_val_type o1
  assert (vt is t1)
  if op_is_imm o2 then some tt else (do t2 ← op_val_type o2; assert (vt is t2))

unfoldable pub init_binary_instr : Instr → InstrType → ValType → Operand → Operand → Option Instr
unfolding init_simple_instr copy_operand binary_types_ok
init_binary_instr i it vt o1 o2 = do
  binary_types_ok vt o1 o2
  let i' = init_simple_instr i it
  d ← copy_operand i'.dst o1
  s ← copy_operand i'.src o2
  some (record i' { form = of_2; vtype = vt; dst = d; src = s })

unfoldable pub init_ternary_instr : Instr → InstrType → Operand → Operand → Operand → Option Instr
unfolding init_simple_instr copy_operand
init_ternary_instr i it o1 o2 o3 = do
  let i' = init_simple_instr i it
  d ← copy_operand i'.dst o1
  s ← copy_operand i'.src o2
  s2 ← copy_operand i'.src2 o3
  some (record i' { form = of_3; dst = d; src = s; src2 = s2 })

-- An opcode byte is an `int` of which -1 says that there is none; the first is asserted to be
-- there. `(uint8_t) b` is `b % 256`.
unfoldable pub pt_opcode : List ℕ → ℕ → Option ℕ → Option ℕ → ℕ × List ℕ
pt_opcode opc b1 none b3 = (1, set opc 0 (b1 % 256))
pt_opcode opc b1 (some b2) none = (2, set (set opc 0 (b1 % 256)) 1 (b2 % 256))
pt_opcode opc b1 (some b2) (some b3) =
    (3, set (set (set opc 0 (b1 % 256)) 1 (b2 % 256)) 2 (b3 % 256))

unfoldable pub attach_passthrough :
    Option Instr
    → VexPrefix
    → ℕ
    → OperandEncoding
    → StateChange
    → Option ℕ
    → Option ℕ
    → Option ℕ
    → Option (Option Instr)
unfolding pt_opcode
attach_passthrough none vp ps enc sc b1 b2 b3 = some none
attach_passthrough (some i) vp ps enc sc b1 b2 b3 = do
  assert (i.pt_len == 0)
  b ← b1
  let (n, opc) = pt_opcode i.pt_opc b b2 b3
  some (
      some (record i {
        pt_enc = enc;
        pt_schange = sc;
        pt_pset = ps;
        pt_vex_p = vp;
        pt_len = n;
        pt_opc = opc;
      }))
