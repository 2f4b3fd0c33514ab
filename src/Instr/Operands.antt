-- ===== src/Instr/Operands.antt =====
-- src/instr.c: operands. A pointer to an operand is the operand itself; a function that writes
-- through its pointer takes what stood there and returns what stands there afterwards. `none` is a
-- failed assertion.
use dbrew.Prelude.{ℕ, Bool, true, false, not, Option, none, some, ◌==◌, ◌!=◌, if◌then◌else◌}
use dbrew.Prelude.{◌>>=◌, ◌>>◌, assert, ◌is◌}
use dbrew.Instr.Kinds.{ValType, vt_8, vt_16, vt_32, vt_64, vt_128, vt_256}
use dbrew.Instr.Kinds.{OpType, ot_imm8, ot_imm16, ot_imm32, ot_imm64, ot_reg8, ot_reg16}
use dbrew.Instr.Kinds.{ot_reg32, ot_reg64, ot_reg128, ot_reg256, ot_ind8, ot_ind16, ot_ind32}
use dbrew.Instr.Kinds.{ot_ind64, ot_ind128, ot_ind256, ot_enum, oso_enum}
use dbrew.Instr.Types.{Reg, Operand}
use dbrew.Instr.Registers.{reg_val_type, reg_is_gp, reg_is_v, reg_is_equal}

unfoldable pub op_val_type : Operand → Option ValType
op_val_type o = elim (o.type) [
  | ot_imm8 ↦ some vt_8
  | ot_reg8 ↦ some vt_8
  | ot_ind8 ↦ some vt_8
  | ot_imm16 ↦ some vt_16
  | ot_reg16 ↦ some vt_16
  | ot_ind16 ↦ some vt_16
  | ot_imm32 ↦ some vt_32
  | ot_reg32 ↦ some vt_32
  | ot_ind32 ↦ some vt_32
  | ot_imm64 ↦ some vt_64
  | ot_reg64 ↦ some vt_64
  | ot_ind64 ↦ some vt_64
  | ot_reg128 ↦ some vt_128
  | ot_ind128 ↦ some vt_128
  | ot_reg256 ↦ some vt_256
  | ot_ind256 ↦ some vt_256
  | _ ↦ none
]

-- The width in bits that `opTypeWidth` gives a value type.
unfoldable pub val_type_width : ValType → Option ℕ
val_type_width vt_8 = some 8
val_type_width vt_16 = some 16
val_type_width vt_32 = some 32
val_type_width vt_64 = some 64
val_type_width vt_128 = some 128
val_type_width vt_256 = some 256
val_type_width _ = none

unfoldable pub op_type_width : Operand → Option ℕ
unfolding op_val_type val_type_width
op_type_width o = do t ← op_val_type o; val_type_width t

unfoldable pub op_is_imm : Operand → Bool
op_is_imm o = elim (o.type) [
  | ot_imm8 ↦ true
  | ot_imm16 ↦ true
  | ot_imm32 ↦ true
  | ot_imm64 ↦ true
  | _ ↦ false
]

unfoldable pub op_is_reg : Operand → Bool
op_is_reg o = elim (o.type) [
  | ot_reg8 ↦ true
  | ot_reg16 ↦ true
  | ot_reg32 ↦ true
  | ot_reg64 ↦ true
  | ot_reg128 ↦ true
  | ot_reg256 ↦ true
  | _ ↦ false
]

unfoldable pub op_is_ind : Operand → Bool
op_is_ind o = elim (o.type) [
  | ot_ind8 ↦ true
  | ot_ind16 ↦ true
  | ot_ind32 ↦ true
  | ot_ind64 ↦ true
  | ot_ind128 ↦ true
  | ot_ind256 ↦ true
  | _ ↦ false
]

unfoldable pub op_is_gp_reg : Operand → Option Bool
unfolding op_is_reg reg_is_gp
op_is_gp_reg o = if not (op_is_reg o) then some false else reg_is_gp o.reg

unfoldable pub op_is_v_reg : Operand → Option Bool
unfolding op_is_reg reg_is_v
op_is_v_reg o = if not (op_is_reg o) then some false else reg_is_v o.reg

-- The last part of `opIsEqual`, for two memory operands of one type.
unfoldable pub ind_is_equal : Operand → Operand → Bool
unfolding reg_is_equal
ind_is_equal o1 o2 =
    if o1.val != o2.val
    then false
    else if not (reg_is_equal o1.reg o2.reg)
    then false
    else if not (o1.seg is o2.seg)
    then false
    else if o1.scale == 0
    then true
    else if o1.scale != o2.scale
    then false
    else if not (reg_is_equal o1.ireg o2.ireg)
    then false
    else true

unfoldable pub op_is_equal : Operand → Operand → Option Bool
unfolding op_is_reg op_is_imm op_is_ind ind_is_equal reg_is_equal
op_is_equal o1 o2 =
    if not (o1.type is o2.type)
    then some false
    else if op_is_reg o1
    then some (reg_is_equal o1.reg o2.reg)
    else if op_is_imm o1
    then some (o1.val == o2.val)
    else do assert (op_is_ind o1); some (ind_is_equal o1 o2)

unfoldable pub get_imm_op_type : ValType → Option OpType
get_imm_op_type vt_8 = some ot_imm8
get_imm_op_type vt_16 = some ot_imm16
get_imm_op_type vt_32 = some ot_imm32
get_imm_op_type vt_64 = some ot_imm64
get_imm_op_type _ = none

unfoldable pub get_gp_reg_op_type : ValType → Option OpType
get_gp_reg_op_type vt_8 = some ot_reg8
get_gp_reg_op_type vt_16 = some ot_reg16
get_gp_reg_op_type vt_32 = some ot_reg32
get_gp_reg_op_type vt_64 = some ot_reg64
get_gp_reg_op_type _ = none

-- The operand type that `setRegOp` gives a vector register, by its value type.
unfoldable pub v_reg_op_type : ValType → Option OpType
v_reg_op_type vt_64 = some ot_reg64
v_reg_op_type vt_128 = some ot_reg128
v_reg_op_type vt_256 = some ot_reg256
v_reg_op_type _ = none

unfoldable pub set_reg_op : Operand → Reg → Option Operand
unfolding reg_val_type reg_is_gp reg_is_v get_gp_reg_op_type v_reg_op_type
set_reg_op o r = do
  gp ← reg_is_gp r
  if gp
      then (do t ← get_gp_reg_op_type (reg_val_type r); some (record o { type = t; reg = r }))
      else (do
        v ← reg_is_v r
        assert v
        t ← v_reg_op_type (reg_val_type r)
        some (record o { type = t; reg = r }))

-- `getRegOp` and `getImmOp` each fill a static operand, `o` before the call, and return it.
unfoldable pub get_reg_op : Operand → Reg → Option Operand
unfolding set_reg_op
get_reg_op o r = set_reg_op o r

unfoldable pub get_imm_op : Operand → ValType → ℕ → Option Operand
unfolding get_imm_op_type
get_imm_op o t v = do ot ← get_imm_op_type t; some (record o { type = ot; val = v })
