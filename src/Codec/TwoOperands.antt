-- ===== src/Codec/TwoOperands.antt =====
-- `parseModRM` undoes `calcModRM` where the second operand is a general purpose register.
use dbrew.Prelude.{◌%◌, ◌<◌, bit_and, ◌≡◌, ◌⊎◌, true, false, ◌||◌, some, arith, ◌is◌}
use dbrew.Codec.Base.{rex_if_high}
use dbrew.Decode.Modrm.{parse_reg_type, parse_ind_type, parse_o2}
use dbrew.Decode.Context.{DContext}
use dbrew.Instr.Kinds.{rt_gp8, rt_enum, ValType, vt_16, vt_32, vt_64}
use dbrew.Instr.Types.{Operand}
use dbrew.Instr.Operands.{op_val_type, op_is_reg, op_is_ind, op_is_gp_reg, get_gp_reg_op_type}
use dbrew.Instr.Registers.{get_gp_reg_type, reg_is_gp}
use dbrew.Generate.Modrm.{calc_modrm_digit, calc_reg2, calc_modrm}
use dbrew.Generate.Context.{GContext, gp_reg_encoding}
use dbrew.Prelude.Table.{bit_and_7, bit_and_8}

-- A general purpose register operand of 16, 32 or 64 bits; for 8 bits the register type that is
-- decoded depends on the REX prefix.
pub record IsGpOperand (vt : ValType) (o : Operand) : Type 0 where
  pub width : (vt ≡ vt_16) ⊎ (vt ≡ vt_32) ⊎ (vt ≡ vt_64)
  pub type_ok : get_gp_reg_op_type vt ≡ some o.type
  pub rt_ok : o.reg.rt ≡ get_gp_reg_type vt
  pub ri_ok : o.reg.ri < 16

pub parse_reg_type_gp :
    (vt : ValType) (o : Operand) → IsGpOperand vt o → parse_reg_type vt 0 ≡ some o.type
unfolding parse_reg_type get_gp_reg_op_type
parse_reg_type_gp vt o h = ground arith

-- The register part of the ModRM byte.
pub parse_o2_gp :
    (y : DContext) (vt : ValType) (o old : Operand)
    → IsGpOperand vt o
    → bit_and y.rex 4 ≡ rex_if_high o.reg.ri 4 0
    → parse_o2 y vt 0 o.type (o.reg.ri % 8) (some old)
      ≡ some (some (record old { type = o.type; reg = o.reg }))
unfolding parse_o2 get_gp_reg_type
parse_o2_gp y vt o old h e = ground (arith, bit_and_8 o.reg.ri)

pub gp_is_reg : (vt : ValType) (o : Operand) → IsGpOperand vt o → op_is_reg o ≡ true
unfolding op_is_reg get_gp_reg_op_type
gp_is_reg vt o h = ground arith

pub gp_facts :
    (vt : ValType) (o : Operand)
    → IsGpOperand vt o
    → (op_val_type o ≡ some vt) × (reg_is_gp o.reg ≡ some true) × ((o.reg.rt is rt_gp8) ≡ false)
unfolding op_val_type get_gp_reg_op_type get_gp_reg_type reg_is_gp
gp_facts vt o h = ground arith

pub ind_facts :
    (vt : ValType) (o : Operand)
    → op_is_ind o ≡ true
    → parse_ind_type vt 0 ≡ some o.type
    → op_val_type o ≡ some vt
unfolding op_is_ind parse_ind_type op_val_type
ind_facts vt o hi h = ground arith

calc_reg2_gp :
    (c : GContext) (vt : ValType) (o1 o2 : Operand)
    → op_is_reg o1 || op_is_ind o1 ≡ true
    → IsGpOperand vt o2
    → calc_reg2 c o1 o2 ≡ some (o2.reg.ri, c.rex)
unfolding calc_reg2 op_is_gp_reg gp_reg_encoding
calc_reg2_gp c vt o1 o2 h1 h2 = ground (arith, gp_facts vt o2, gp_is_reg vt o2)

pub calc_modrm-gp :
    (c : GContext) (vt : ValType) (o1 o2 : Operand)
    → op_val_type o1 ≡ some vt
    → op_is_reg o1 || op_is_ind o1 ≡ true
    → IsGpOperand vt o2
    → c.rex ≡ 0
    → calc_modrm c o1 o2
      ≡ calc_modrm_digit (record c { rex = rex_if_high o2.reg.ri 4 0 }) o1 (o2.reg.ri % 8) 0
unfolding calc_modrm
calc_modrm-gp c vt o1 o2 ht h1 h2 hc =
    ground (arith, calc_reg2_gp c vt o1 o2, gp_facts vt o2, bit_and_7 o2.reg.ri)

pub gp_same_type :
    (vt : ValType) (a b : Operand) → IsGpOperand vt a → IsGpOperand vt b → a.type ≡ b.type
unfolding get_gp_reg_op_type
gp_same_type vt a b ha hb = ground arith
