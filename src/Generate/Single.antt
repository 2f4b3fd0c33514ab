-- ===== src/Generate/Single.antt =====
-- src/generate.c: the generators of single instructions, moves and stack operations.
--
-- The context holds what `generate` has set up; the instruction is an argument. `junk` is what the
-- static operands of the reductions and the local operand of `genMov` held before.
use dbrew.Prelude.{ℕ, ◌+◌, ◌-◌, Bool, false, not, ◌&&◌, ◌||◌, Option, none, some, List, [], ◌∷◌}
use dbrew.Prelude.{ltb, ◌==◌, if◌then◌else◌, ◌>>=◌, ◌>>◌, assert, ◌is◌}
use dbrew.Instr.Kinds.{vt_none, vt_32, vt_64, vt_enum, OpType, ot_imm32, ot_imm64}
use dbrew.Instr.Kinds.{ot_reg8, ot_reg16, ot_reg32, ot_reg64, ot_ind8, ot_ind16, ot_ind32}
use dbrew.Instr.Kinds.{ot_ind64, ot_enum}
use dbrew.Instr.Copy.{copy_operand}
use dbrew.Instr.Mnemonics.{InstrType, it_cmovo, it_cmovno, it_cmovc, it_cmovnc, it_cmovz}
use dbrew.Instr.Mnemonics.{it_cmovnz, it_cmovbe, it_cmova, it_cmovs, it_cmovns, it_cmovp}
use dbrew.Instr.Mnemonics.{it_cmovnp, it_cmovl, it_cmovge, it_cmovle, it_cmovg}
use dbrew.Instr.Types.{Operand, Instr}
use dbrew.Instr.Operands.{op_val_type}
use dbrew.Generate.Context.{GContext, gen_66_on_vt16, gen_def_op_vt64, gp64_reg_encoding}
use dbrew.Generate.Reduce.{reduce_imm64_to32}
use dbrew.Generate.Prefix.{gen_modrm, gen_digit_rm, gen_digit_mi, gen_oi}

-- The bytes that are written, or -1 for operands that are not supported.
pub data Generated : Type 0 where
  not_supported : Generated
  generated : List ℕ → Generated

unfoldable pub written : Option (GContext × List ℕ) → Option Generated
written m = do (c, bytes) ← m; some (generated bytes)

-- The labels of a `switch` on the type of an operand.
unfoldable pub one_of : OpType → List OpType → Bool
one_of t [] = false
one_of t (u ∷ us) = t is u || one_of t us

abbrev pub regs_32_64 : List OpType
regs_32_64 = ot_reg32 ∷ ot_reg64 ∷ []

abbrev pub inds_32_64 : List OpType
inds_32_64 = ot_ind32 ∷ ot_ind64 ∷ []

abbrev pub ops_32_64 : List OpType
ops_32_64 = ot_reg32 ∷ ot_reg64 ∷ ot_ind32 ∷ ot_ind64 ∷ []

abbrev pub ops_16_64 : List OpType
ops_16_64 = ot_reg16 ∷ ot_reg32 ∷ ot_reg64 ∷ ot_ind16 ∷ ot_ind32 ∷ ot_ind64 ∷ []

unfoldable pub gen_ret : List ℕ
gen_ret = 0xC3 ∷ []

-- A register in the low bits of an opcode, with a REX prefix for r8 to r15.
unfoldable pub push_pop_reg : ℕ → Operand → Option Generated
unfolding gp64_reg_encoding
push_pop_reg opc o = do
  r ← gp64_reg_encoding o.reg
  if ltb 7 r
      then (do assert (ltb r 16); some (generated (0x41 ∷ (opc + (r - 8)) ∷ [])))
      else some (generated ((opc + r) ∷ []))

unfoldable pub gen_push : GContext → Instr → Option Generated
unfolding push_pop_reg written gen_digit_rm
gen_push c i =
    if i.dst.type is ot_reg64
    then push_pop_reg 0x50 i.dst
    else if i.dst.type is ot_ind64
    then written (gen_digit_rm c 0xFF 6 i.dst gen_def_op_vt64)
    else some not_supported

unfoldable pub gen_pop : Instr → Option Generated
unfolding push_pop_reg
gen_pop i = if i.dst.type is ot_reg64 then push_pop_reg 0x58 i.dst else some not_supported

unfoldable pub gen_dec : GContext → Instr → Option Generated
unfolding one_of written gen_digit_rm
gen_dec c i =
    if one_of i.dst.type ops_32_64
    then written (gen_digit_rm c 0xFF 1 i.dst 0)
    else some not_supported

unfoldable pub gen_inc : GContext → Instr → Option Generated
unfolding one_of written gen_digit_rm
gen_inc c i =
    if one_of i.dst.type ops_32_64
    then written (gen_digit_rm c 0xFF 0 i.dst 0)
    else some not_supported

unfoldable pub gen_neg : GContext → Instr → Option Generated
unfolding one_of written gen_digit_rm
gen_neg c i =
    if one_of i.dst.type (ot_ind8 ∷ ot_reg8 ∷ [])
    then written (gen_digit_rm c 0xF6 3 i.dst 0)
    else if one_of i.dst.type ops_16_64
    then written (gen_digit_rm c 0xF7 3 i.dst gen_66_on_vt16)
    else some not_supported

-- `mov r/m,r`.
unfoldable pub gen_mov_mr : GContext → Operand → Operand → Option Generated
unfolding op_val_type written gen_modrm
gen_mov_mr c dst src = do
  t1 ← op_val_type src
  t2 ← op_val_type dst
  if not (t1 is t2) then some not_supported else written (gen_modrm c 0x89 dst src vt_none 0)

-- `movsx r64,r/m32`; the source is given 64 bits for `genModRM`.
unfoldable pub gen_movsx : GContext → Operand → Operand → Operand → Option Generated
unfolding copy_operand written gen_modrm
gen_movsx c junk dst src = do
  e ← copy_operand junk src
  let t = if src.type is ot_reg32 then ot_reg64 else ot_ind64
  written (gen_modrm c 0x63 (record e { type = t }) dst vt_none 0)

-- From memory to a register. Nothing is generated for types that do not fit, and no error.
unfoldable pub gen_mov_rm : GContext → Operand → Operand → Operand → Option Generated
unfolding op_val_type written gen_modrm gen_movsx
gen_mov_rm c junk dst src = do
  t1 ← op_val_type src
  t2 ← op_val_type dst
  if t1 is t2
      then written (gen_modrm c 0x8B src dst vt_none 0)
      else if t1 is vt_32 && t2 is vt_64
      then gen_movsx c junk dst src
      else some (generated [])

unfoldable pub gen_mov_rr : GContext → Operand → Operand → Operand → Option Generated
unfolding op_val_type gen_mov_mr gen_movsx
gen_mov_rr c junk dst src = do
  t1 ← op_val_type src
  t2 ← op_val_type dst
  if t1 is vt_32 && t2 is vt_64 then gen_movsx c junk dst src else gen_mov_mr c dst src

-- Setting a register to 0 is done by `xor`.
unfoldable pub gen_mov_imm : GContext → Operand → Operand → Option Generated
unfolding one_of written gen_modrm gen_digit_mi gen_oi
gen_mov_imm c dst src =
    if one_of dst.type regs_32_64
    then (if src.val == 0
        then written (gen_modrm c 0x31 dst dst vt_none 0)
        else if src.type is ot_imm32
        then written (gen_digit_mi c 0xC7 0 dst src 0)
        else written (gen_oi c 0xB8 dst src 0))
    else if src.type is ot_imm32 && one_of dst.type inds_32_64
    then written (gen_digit_mi c 0xC7 0 dst src 0)
    else some not_supported

unfoldable pub gen_mov : GContext → Operand → Instr → Option Generated
unfolding one_of reduce_imm64_to32 gen_mov_rr gen_mov_mr gen_mov_rm gen_mov_imm
gen_mov c junk i =
    let src = reduce_imm64_to32 junk i.src in
    if one_of src.type regs_32_64
    then (if one_of i.dst.type regs_32_64
        then gen_mov_rr c junk i.dst src
        else if one_of i.dst.type inds_32_64
        then gen_mov_mr c i.dst src
        else some not_supported)
    else if one_of src.type inds_32_64
    then (if one_of i.dst.type regs_32_64 then gen_mov_rm c junk i.dst src else some not_supported)
    else if one_of src.type (ot_imm32 ∷ ot_imm64 ∷ [])
    then gen_mov_imm c i.dst src
    else some not_supported

-- The opcode of a conditional move.
unfoldable pub cmov_opcode : InstrType → Option ℕ
cmov_opcode it_cmovo = some 0x40
cmov_opcode it_cmovno = some 0x41
cmov_opcode it_cmovc = some 0x42
cmov_opcode it_cmovnc = some 0x43
cmov_opcode it_cmovz = some 0x44
cmov_opcode it_cmovnz = some 0x45
cmov_opcode it_cmovbe = some 0x46
cmov_opcode it_cmova = some 0x47
cmov_opcode it_cmovs = some 0x48
cmov_opcode it_cmovns = some 0x49
cmov_opcode it_cmovp = some 0x4A
cmov_opcode it_cmovnp = some 0x4B
cmov_opcode it_cmovl = some 0x4C
cmov_opcode it_cmovge = some 0x4D
cmov_opcode it_cmovle = some 0x4E
cmov_opcode it_cmovg = some 0x4F
cmov_opcode _ = none

unfoldable pub gen_cmov : GContext → Instr → Option Generated
unfolding one_of op_val_type cmov_opcode written gen_modrm
gen_cmov c i =
    if one_of i.dst.type regs_32_64 && one_of i.src.type ops_32_64
    then (do
      t1 ← op_val_type i.src
      t2 ← op_val_type i.dst
      if not (t1 is t2)
          then some not_supported
          else (do opc ← cmov_opcode i.type; written (gen_modrm c opc i.src i.dst vt_none 0)))
    else some not_supported
