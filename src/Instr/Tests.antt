-- ===== src/Instr/Tests.antt =====
-- Concrete operands for the laws of copying, building and overwriting.
use dbrew.Prelude.{◌≡◌, refl, inr, true, some}
use dbrew.Instr.Kinds.{rt_none, rt_gp32, rt_gp64, ot_reg32, ot_ind64, oso_none}
use dbrew.Instr.Copy.{copy_ind, copy_operand}
use dbrew.Instr.Types.{Operand}
use dbrew.Instr.Laws.{copy_operand-op_is_equal}
use dbrew.Instr.Operands.{op_is_imm, op_is_reg, op_is_ind, op_is_equal}
use dbrew.Instr.Registers.{reg_is_equal}

abbrev eax : Operand
eax = record {
  val = 7;
  type = ot_reg32;
  reg = record { rt = rt_gp32; ri = 0 };
  ireg = record { rt = rt_none; ri = 0 };
  scale = 0;
  seg = oso_none;
}

-- `[rbx + 8 * rcx + 16]`, 64 bits.
abbrev element : Operand
element = record {
  val = 16;
  type = ot_ind64;
  reg = record { rt = rt_gp64; ri = 3 };
  ireg = record { rt = rt_gp64; ri = 1 };
  scale = 8;
  seg = oso_none;
}

copy_operand-op_is_equal_example : op_is_equal element element ≡ some true
unfolding copy_operand copy_ind op_is_imm op_is_reg op_is_ind reg_is_equal
copy_operand-op_is_equal_example = copy_operand-op_is_equal eax element element refl refl (inr refl)
