-- ===== src/Instr/Kinds.antt =====
-- include/priv/instr.h: the enumerations of registers, values and operands, numbered as in C.
-- `RT_Max`, `VT_Max`, `OT_MAX` and `OF_Max` only count the others and are left out.
use dbrew.Prelude.{ℕ, ◌≡◌, refl, List, [], ◌∷◌, get_elem?, Enum}
use mathlib.Core.Option

-- `RegType`.
pub data RegType : Type 0 where
  rt_none rt_gp8leg rt_gp8 rt_gp16 rt_gp32 rt_gp64 rt_flag rt_ip rt_x87 rt_mmx rt_xmm : RegType
  rt_ymm rt_zmm : RegType

abbrev pub rt_code : RegType → ℕ
rt_code rt_none = 0
rt_code rt_gp8leg = 1
rt_code rt_gp8 = 2
rt_code rt_gp16 = 3
rt_code rt_gp32 = 4
rt_code rt_gp64 = 5
rt_code rt_flag = 6
rt_code rt_ip = 7
rt_code rt_x87 = 8
rt_code rt_mmx = 9
rt_code rt_xmm = 10
rt_code rt_ymm = 11
rt_code rt_zmm = 12

rt_all : List RegType
rt_all =
    rt_none ∷ rt_gp8leg ∷ rt_gp8 ∷ rt_gp16 ∷ rt_gp32 ∷ rt_gp64 ∷ rt_flag ∷ rt_ip ∷ rt_x87 ∷ rt_mmx
    ∷ rt_xmm ∷ rt_ymm ∷ rt_zmm ∷ []

pub rt_of_code : ℕ → RegType
rt_of_code n = Option.get_or (get_elem? rt_all n) rt_none

pub rt_of_code-code : (a : RegType) → rt_of_code (rt_code a) ≡ a
unfolding rt_of_code rt_all
rt_of_code-code rt_none = refl
rt_of_code-code rt_gp8leg = refl
rt_of_code-code rt_gp8 = refl
rt_of_code-code rt_gp16 = refl
rt_of_code-code rt_gp32 = refl
rt_of_code-code rt_gp64 = refl
rt_of_code-code rt_flag = refl
rt_of_code-code rt_ip = refl
rt_of_code-code rt_x87 = refl
rt_of_code-code rt_mmx = refl
rt_of_code-code rt_xmm = refl
rt_of_code-code rt_ymm = refl
rt_of_code-code rt_zmm = refl

instance abbrev pub rt_enum : Enum RegType
rt_enum = record { code = rt_code; of_code = rt_of_code; of_code-code = rt_of_code-code }

-- `ValType`.
pub data ValType : Type 0 where
  vt_none vt_1 vt_8 vt_16 vt_32 vt_64 vt_80 vt_128 vt_256 vt_512 vt_implicit vt_def : ValType
  vt_implicit_rexw : ValType

abbrev pub vt_code : ValType → ℕ
vt_code vt_none = 0
vt_code vt_1 = 1
vt_code vt_8 = 2
vt_code vt_16 = 3
vt_code vt_32 = 4
vt_code vt_64 = 5
vt_code vt_80 = 6
vt_code vt_128 = 7
vt_code vt_256 = 8
vt_code vt_512 = 9
vt_code vt_implicit = 10
vt_code vt_def = 11
vt_code vt_implicit_rexw = 12

vt_all : List ValType
vt_all =
    vt_none ∷ vt_1 ∷ vt_8 ∷ vt_16 ∷ vt_32 ∷ vt_64 ∷ vt_80 ∷ vt_128 ∷ vt_256 ∷ vt_512 ∷ vt_implicit
    ∷ vt_def ∷ vt_implicit_rexw ∷ []

pub vt_of_code : ℕ → ValType
vt_of_code n = Option.get_or (get_elem? vt_all n) vt_none

pub vt_of_code-code : (a : ValType) → vt_of_code (vt_code a) ≡ a
unfolding vt_of_code vt_all
vt_of_code-code vt_none = refl
vt_of_code-code vt_1 = refl
vt_of_code-code vt_8 = refl
vt_of_code-code vt_16 = refl
vt_of_code-code vt_32 = refl
vt_of_code-code vt_64 = refl
vt_of_code-code vt_80 = refl
vt_of_code-code vt_128 = refl
vt_of_code-code vt_256 = refl
vt_of_code-code vt_512 = refl
vt_of_code-code vt_implicit = refl
vt_of_code-code vt_def = refl
vt_of_code-code vt_implicit_rexw = refl

instance abbrev pub vt_enum : Enum ValType
vt_enum = record { code = vt_code; of_code = vt_of_code; of_code-code = vt_of_code-code }

-- `OpType`.
pub data OpType : Type 0 where
  ot_none ot_imm8 ot_imm16 ot_imm32 ot_imm64 ot_reg8 ot_reg16 ot_reg32 ot_reg64 ot_reg128 : OpType
  ot_reg256 ot_reg512 ot_ind8 ot_ind16 ot_ind32 ot_ind64 ot_ind128 ot_ind256 ot_ind512 : OpType

abbrev pub ot_code : OpType → ℕ
ot_code ot_none = 0
ot_code ot_imm8 = 1
ot_code ot_imm16 = 2
ot_code ot_imm32 = 3
ot_code ot_imm64 = 4
ot_code ot_reg8 = 5
ot_code ot_reg16 = 6
ot_code ot_reg32 = 7
ot_code ot_reg64 = 8
ot_code ot_reg128 = 9
ot_code ot_reg256 = 10
ot_code ot_reg512 = 11
ot_code ot_ind8 = 12
ot_code ot_ind16 = 13
ot_code ot_ind32 = 14
ot_code ot_ind64 = 15
ot_code ot_ind128 = 16
ot_code ot_ind256 = 17
ot_code ot_ind512 = 18

ot_all : List OpType
ot_all =
    ot_none ∷ ot_imm8 ∷ ot_imm16 ∷ ot_imm32 ∷ ot_imm64 ∷ ot_reg8 ∷ ot_reg16 ∷ ot_reg32 ∷ ot_reg64
    ∷ ot_reg128 ∷ ot_reg256 ∷ ot_reg512 ∷ ot_ind8 ∷ ot_ind16 ∷ ot_ind32 ∷ ot_ind64 ∷ ot_ind128
    ∷ ot_ind256 ∷ ot_ind512 ∷ []

pub ot_of_code : ℕ → OpType
ot_of_code n = Option.get_or (get_elem? ot_all n) ot_none

pub ot_of_code-code : (a : OpType) → ot_of_code (ot_code a) ≡ a
unfolding ot_of_code ot_all
ot_of_code-code ot_none = refl
ot_of_code-code ot_imm8 = refl
ot_of_code-code ot_imm16 = refl
ot_of_code-code ot_imm32 = refl
ot_of_code-code ot_imm64 = refl
ot_of_code-code ot_reg8 = refl
ot_of_code-code ot_reg16 = refl
ot_of_code-code ot_reg32 = refl
ot_of_code-code ot_reg64 = refl
ot_of_code-code ot_reg128 = refl
ot_of_code-code ot_reg256 = refl
ot_of_code-code ot_reg512 = refl
ot_of_code-code ot_ind8 = refl
ot_of_code-code ot_ind16 = refl
ot_of_code-code ot_ind32 = refl
ot_of_code-code ot_ind64 = refl
ot_of_code-code ot_ind128 = refl
ot_of_code-code ot_ind256 = refl
ot_of_code-code ot_ind512 = refl

instance abbrev pub ot_enum : Enum OpType
ot_enum = record { code = ot_code; of_code = ot_of_code; of_code-code = ot_of_code-code }

-- `OpSegOverride`.
pub data OpSegOverride : Type 0 where
  oso_none oso_usefs oso_usegs : OpSegOverride

abbrev pub oso_code : OpSegOverride → ℕ
oso_code oso_none = 0
oso_code oso_usefs = 1
oso_code oso_usegs = 2

oso_all : List OpSegOverride
oso_all = oso_none ∷ oso_usefs ∷ oso_usegs ∷ []

pub oso_of_code : ℕ → OpSegOverride
oso_of_code n = Option.get_or (get_elem? oso_all n) oso_none

pub oso_of_code-code : (a : OpSegOverride) → oso_of_code (oso_code a) ≡ a
unfolding oso_of_code oso_all
oso_of_code-code oso_none = refl
oso_of_code-code oso_usefs = refl
oso_of_code-code oso_usegs = refl

instance abbrev pub oso_enum : Enum OpSegOverride
oso_enum = record { code = oso_code; of_code = oso_of_code; of_code-code = oso_of_code-code }

-- `OperandForm`.
pub data OperandForm : Type 0 where
  of_none of_0 of_1 of_2 of_3 : OperandForm

abbrev pub of_code : OperandForm → ℕ
of_code of_none = 0
of_code of_0 = 1
of_code of_1 = 2
of_code of_2 = 3
of_code of_3 = 4

of_all : List OperandForm
of_all = of_none ∷ of_0 ∷ of_1 ∷ of_2 ∷ of_3 ∷ []

pub of_of_code : ℕ → OperandForm
of_of_code n = Option.get_or (get_elem? of_all n) of_none

pub of_of_code-code : (a : OperandForm) → of_of_code (of_code a) ≡ a
unfolding of_of_code of_all
of_of_code-code of_none = refl
of_of_code-code of_0 = refl
of_of_code-code of_1 = refl
of_of_code-code of_2 = refl
of_of_code-code of_3 = refl

instance abbrev pub of_enum : Enum OperandForm
of_enum = record { code = of_code; of_code = of_of_code; of_code-code = of_of_code-code }

-- `VexPrefix`.
pub data VexPrefix : Type 0 where
  vex_no vex_128 vex_256 vex_lig : VexPrefix

abbrev pub vex_code : VexPrefix → ℕ
vex_code vex_no = 0
vex_code vex_128 = 1
vex_code vex_256 = 2
vex_code vex_lig = 3

vex_all : List VexPrefix
vex_all = vex_no ∷ vex_128 ∷ vex_256 ∷ vex_lig ∷ []

pub vex_of_code : ℕ → VexPrefix
vex_of_code n = Option.get_or (get_elem? vex_all n) vex_no

pub vex_of_code-code : (a : VexPrefix) → vex_of_code (vex_code a) ≡ a
unfolding vex_of_code vex_all
vex_of_code-code vex_no = refl
vex_of_code-code vex_128 = refl
vex_of_code-code vex_256 = refl
vex_of_code-code vex_lig = refl

instance abbrev pub vex_enum : Enum VexPrefix
vex_enum = record { code = vex_code; of_code = vex_of_code; of_code-code = vex_of_code-code }

-- `OperandEncoding`.
pub data OperandEncoding : Type 0 where
  oe_invalid oe_none oe_mr oe_rm oe_rmi oe_rvm : OperandEncoding

abbrev pub oe_code : OperandEncoding → ℕ
oe_code oe_invalid = 0
oe_code oe_none = 1
oe_code oe_mr = 2
oe_code oe_rm = 3
oe_code oe_rmi = 4
oe_code oe_rvm = 5

oe_all : List OperandEncoding
oe_all = oe_invalid ∷ oe_none ∷ oe_mr ∷ oe_rm ∷ oe_rmi ∷ oe_rvm ∷ []

pub oe_of_code : ℕ → OperandEncoding
oe_of_code n = Option.get_or (get_elem? oe_all n) oe_invalid

pub oe_of_code-code : (a : OperandEncoding) → oe_of_code (oe_code a) ≡ a
unfolding oe_of_code oe_all
oe_of_code-code oe_invalid = refl
oe_of_code-code oe_none = refl
oe_of_code-code oe_mr = refl
oe_of_code-code oe_rm = refl
oe_of_code-code oe_rmi = refl
oe_of_code-code oe_rvm = refl

instance abbrev pub oe_enum : Enum OperandEncoding
oe_enum = record { code = oe_code; of_code = oe_of_code; of_code-code = oe_of_code-code }

-- `StateChange`.
pub data StateChange : Type 0 where
  sc_none sc_dstdyn : StateChange

abbrev pub sc_code : StateChange → ℕ
sc_code sc_none = 0
sc_code sc_dstdyn = 1

sc_all : List StateChange
sc_all = sc_none ∷ sc_dstdyn ∷ []

pub sc_of_code : ℕ → StateChange
sc_of_code n = Option.get_or (get_elem? sc_all n) sc_none

pub sc_of_code-code : (a : StateChange) → sc_of_code (sc_code a) ≡ a
unfolding sc_of_code sc_all
sc_of_code-code sc_none = refl
sc_of_code-code sc_dstdyn = refl

instance abbrev pub sc_enum : Enum StateChange
sc_enum = record { code = sc_code; of_code = sc_of_code; of_code-code = sc_of_code-code }
