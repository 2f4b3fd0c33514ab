-- ===== src/Instr/Types.antt =====
-- include/priv/instr.h: registers, operands and decoded instructions.
use dbrew.Prelude.{ℕ, Option, List}
use dbrew.Instr.Kinds.{RegType, ValType, OpType, OpSegOverride, OperandForm, VexPrefix}
use dbrew.Instr.Kinds.{OperandEncoding, StateChange}
use dbrew.Instr.Mnemonics.{InstrType}

-- `RegIndex` is a number, since the indexes of different register types overlap. Each constant is
-- named for its enumerator, `RI_None` first.
abbrev pub ri_none : ℕ
ri_none = 100

abbrev pub ri_b : ℕ
ri_b = 3

abbrev pub ri_sp : ℕ
ri_sp = 4

abbrev pub ri_bp : ℕ
ri_bp = 5

abbrev pub ri_12 : ℕ
ri_12 = 12

abbrev pub ri_13 : ℕ
ri_13 = 13

abbrev pub ri_gp_max : ℕ
ri_gp_max = 16

abbrev pub ri_mm_max : ℕ
ri_mm_max = 8

abbrev pub ri_xmm_max : ℕ
ri_xmm_max = 16

abbrev pub ri_zmm_max : ℕ
ri_zmm_max = 32

-- `Reg`.
pub record Reg : Type 0 where
  pub rt : RegType
  pub ri : ℕ

-- `Operand`. `val` is a `uint64_t`; `scale` is never negative.
pub record Operand : Type 0 where
  pub val : ℕ
  pub type : OpType
  pub reg : Reg
  pub ireg : Reg
  pub scale : ℕ
  pub seg : OpSegOverride

-- `PrefixSet` is a set of bits.
abbrev pub ps_no : ℕ
ps_no = 0

abbrev pub ps_66 : ℕ
ps_66 = 2

abbrev pub ps_f2 : ℕ
ps_f2 = 4

abbrev pub ps_f3 : ℕ
ps_f3 = 8

abbrev pub ps_2e : ℕ
ps_2e = 16

abbrev pub ps_rexw : ℕ
ps_rexw = 32

-- `Instr`. `pt_opc` holds the three bytes of `ptOpc`; `info_mem_addr` is the index of a node of the
-- expression pool, or none for a null pointer.
pub record Instr : Type 0 where
  pub type : InstrType
  pub form : OperandForm
  pub vtype : ValType
  pub dst : Operand
  pub src : Operand
  pub src2 : Operand
  pub addr : ℕ
  pub len : ℕ
  pub pt_len : ℕ
  pub pt_vex_p : VexPrefix
  pub pt_pset : ℕ
  pub pt_opc : List ℕ
  pub pt_enc : OperandEncoding
  pub pt_schange : StateChange
  pub info_mem_addr : Option ℕ
