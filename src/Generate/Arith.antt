-- ===== src/Generate/Arith.antt =====
-- src/generate.c: the generators of single instructions, arithmetic, logic, tests and shifts. Several
-- differ in opcodes and digits only; these share a function that takes them.
use dbrew.Prelude.{ℕ, ◌+◌, not, ◌&&◌, Option, some, List, [], ◌∷◌, ◌++◌, ◌==◌, if◌then◌else◌}
use dbrew.Prelude.{◌>>=◌, ◌is◌}
use dbrew.Instr.Kinds.{vt_none, vt_64, vt_128, vt_enum, OpType, ot_imm8, ot_imm16}
use dbrew.Instr.Kinds.{ot_imm32, ot_reg8, ot_reg16, ot_reg32, ot_reg64, ot_ind8, ot_ind16}
use dbrew.Instr.Kinds.{ot_ind32, ot_ind64, ot_enum}
use dbrew.Instr.Types.{Operand, Instr}
use dbrew.Instr.Operands.{op_val_type, op_is_ind, op_is_gp_reg}
use dbrew.Generate.Context.{GContext, gen_66_on_vt16}
use dbrew.Generate.Reduce.{reduce_imm64_to32, reduce_imm16_to8, reduce_imm32_to8}
use dbrew.Generate.Single.{Generated, not_supported, generated, written, one_of, regs_32_64}
use dbrew.Generate.Single.{inds_32_64, ops_32_64, ops_16_64}
use dbrew.Generate.Prefix.{gen_modrm, gen_digit_rm, append_i, gen_modrm_i, gen_digit_mi}

abbrev pub ops_8 : List OpType
ops_8 = ot_reg8 ∷ ot_ind8 ∷ []

-- `genSub`, `genXor`, `genOr` and `genCmp`: the opcodes with a register as source and with memory as
-- source, and the digit for immediates.
unfoldable pub gen_arith : GContext → Operand → Instr → ℕ → ℕ → ℕ → Option Generated
unfolding reduce_imm64_to32 reduce_imm32_to8 one_of op_val_type written gen_modrm gen_digit_mi
gen_arith c junk i mr rm digit =
    let src = reduce_imm32_to8 junk (reduce_imm64_to32 junk i.src) in
    if one_of src.type ops_32_64
    then (do
      t1 ← op_val_type src
      t2 ← op_val_type i.dst
      if not (t1 is t2)
          then some not_supported
          else if one_of src.type regs_32_64 && one_of i.dst.type ops_32_64
          then written (gen_modrm c mr i.dst src vt_none 0)
          else if one_of src.type inds_32_64 && one_of i.dst.type regs_32_64
          then written (gen_modrm c rm src i.dst vt_none 0)
          else some not_supported)
    else if src.type is ot_imm8 && one_of i.dst.type ops_32_64
    then written (gen_digit_mi c 0x83 digit i.dst src 0)
    else if src.type is ot_imm32 && one_of i.dst.type ops_32_64
    then written (gen_digit_mi c 0x81 digit i.dst src 0)
    else some not_supported

unfoldable pub gen_sub : GContext → Operand → Instr → Option Generated
unfolding gen_arith
gen_sub c junk i = gen_arith c junk i 0x29 0x2B 5

unfoldable pub gen_xor : GContext → Operand → Instr → Option Generated
unfolding gen_arith
gen_xor c junk i = gen_arith c junk i 0x31 0x33 6

unfoldable pub gen_or : GContext → Operand → Instr → Option Generated
unfolding gen_arith
gen_or c junk i = gen_arith c junk i 0x09 0x0B 1

unfoldable pub gen_cmp : GContext → Operand → Instr → Option Generated
unfolding gen_arith
gen_cmp c junk i = gen_arith c junk i 0x39 0x3B 7

-- The bytes before an immediate that goes to the register A.
unfoldable pub gen_acc : List ℕ → Operand → Option Generated
unfolding append_i
gen_acc bytes src = do imm ← append_i src; some (generated (bytes ++ imm))

-- `genAdd`, `genAnd` and `genTest` on an immediate of the width of the destination: the short opcode
-- for the register A, and the opcodes for 8 bits and for more.
unfoldable pub gen_acc_imm : GContext → Operand → Operand → ℕ → ℕ → ℕ → ℕ → Option Generated
unfolding one_of gen_acc written gen_digit_mi
gen_acc_imm c dst src acc mi8 mi digit =
    if src.type is ot_imm8 && one_of dst.type ops_8
    then (if dst.type is ot_reg8 && dst.reg.ri == 0
        then gen_acc (acc ∷ []) src
        else written (gen_digit_mi c mi8 digit dst src 0))
    else if src.type is ot_imm16 && one_of dst.type (ot_reg16 ∷ ot_ind16 ∷ [])
    then (if dst.type is ot_reg16 && dst.reg.ri == 0
        then gen_acc (0x66 ∷ (acc + 1) ∷ []) src
        else written (gen_digit_mi c mi digit dst src gen_66_on_vt16))
    else if src.type is ot_imm32 && one_of dst.type ops_32_64
    then (if one_of dst.type regs_32_64 && dst.reg.ri == 0
        then gen_acc (if dst.type is ot_reg64 then 0x48 ∷ (acc + 1) ∷ [] else (acc + 1) ∷ []) src
        else written (gen_digit_mi c mi digit dst src 0))
    else some not_supported

-- The part of these on a register as source.
unfoldable pub gen_from_reg : GContext → Operand → Operand → ℕ → ℕ → Option Generated
unfolding one_of op_val_type written gen_modrm
gen_from_reg c dst src mr8 mr = do
  t1 ← op_val_type src
  t2 ← op_val_type dst
  if not (t1 is t2)
      then some not_supported
      else if one_of dst.type ops_16_64
      then written (gen_modrm c mr dst src vt_none gen_66_on_vt16)
      else if one_of dst.type ops_8
      then written (gen_modrm c mr8 dst src vt_none 0)
      else some not_supported

-- The part of these on memory as source.
unfoldable pub gen_from_ind : GContext → Operand → Operand → ℕ → ℕ → Option Generated
unfolding one_of op_val_type written gen_modrm
gen_from_ind c dst src rm8 rm = do
  t1 ← op_val_type src
  t2 ← op_val_type dst
  if not (t1 is t2)
      then some not_supported
      else if dst.type is ot_reg8
      then written (gen_modrm c rm8 src dst vt_none 0)
      else if one_of dst.type (ot_reg16 ∷ ot_reg32 ∷ ot_reg64 ∷ [])
      then written (gen_modrm c rm src dst vt_none gen_66_on_vt16)
      else some not_supported

abbrev pub regs_8_64 : List OpType
regs_8_64 = ot_reg8 ∷ ot_reg16 ∷ ot_reg32 ∷ ot_reg64 ∷ []

abbrev pub inds_8_64 : List OpType
inds_8_64 = ot_ind8 ∷ ot_ind16 ∷ ot_ind32 ∷ ot_ind64 ∷ []

-- `genAdd` and `genAnd`, whose opcodes start at `base`.
unfoldable pub gen_add_and : GContext → Operand → Instr → ℕ → ℕ → Option Generated
unfolding reduce_imm64_to32 reduce_imm32_to8 reduce_imm16_to8 one_of gen_from_reg gen_from_ind
    gen_acc_imm written gen_digit_mi
gen_add_and c junk i base digit =
    let src = reduce_imm16_to8 junk (reduce_imm32_to8 junk (reduce_imm64_to32 junk i.src)) in
    if one_of src.type regs_8_64
    then gen_from_reg c i.dst src base (base + 1)
    else if one_of src.type inds_8_64
    then gen_from_ind c i.dst src (base + 2) (base + 3)
    else if src.type is ot_imm8 && one_of i.dst.type ops_16_64
    then written (gen_digit_mi c 0x83 digit i.dst src gen_66_on_vt16)
    else gen_acc_imm c i.dst src (base + 4) 0x80 0x81 digit

unfoldable pub gen_add : GContext → Operand → Instr → Option Generated
unfolding gen_add_and
gen_add c junk i = gen_add_and c junk i 0x00 0

unfoldable pub gen_and : GContext → Operand → Instr → Option Generated
unfolding gen_add_and
gen_and c junk i = gen_add_and c junk i 0x20 4

unfoldable pub gen_test : GContext → Operand → Instr → Option Generated
unfolding reduce_imm64_to32 one_of gen_from_reg gen_acc_imm
gen_test c junk i =
    let src = reduce_imm64_to32 junk i.src in
    if one_of src.type regs_8_64
    then gen_from_reg c i.dst src 0x84 0x85
    else gen_acc_imm c i.dst src 0xA8 0xF6 0xF7 0

unfoldable pub gen_imul : GContext → Operand → Instr → Option Generated
unfolding reduce_imm64_to32 reduce_imm32_to8 one_of op_val_type written gen_modrm gen_modrm_i
gen_imul c junk i =
    let src = reduce_imm32_to8 junk (reduce_imm64_to32 junk i.src) in
    if src.type is ot_imm8
    then (if one_of i.dst.type regs_32_64
        then written (gen_modrm_i c 0x6B i.dst i.dst src 0)
        else some not_supported)
    else if one_of src.type (ot_imm32 ∷ ops_32_64)
    then (do
      t1 ← op_val_type src
      t2 ← op_val_type i.dst
      if not (t1 is t2 && one_of i.dst.type regs_32_64)
          then some not_supported
          else if src.type is ot_imm32
          then written (gen_modrm_i c 0x69 i.dst i.dst src 0)
          else written (gen_modrm c 0x0FAF src i.dst vt_none 0))
    else some not_supported

unfoldable pub gen_idiv1 : GContext → Instr → Option Generated
unfolding one_of written gen_digit_rm
gen_idiv1 c i =
    if one_of i.dst.type ops_32_64
    then written (gen_digit_rm c 0xF7 7 i.dst 0)
    else some not_supported

-- `genShl`, `genShr` and `genSar`, by their digit.
unfoldable pub gen_shift : GContext → Instr → ℕ → Option Generated
unfolding one_of written gen_digit_mi
gen_shift c i digit =
    if i.src.type is ot_imm8 && one_of i.dst.type ops_32_64
    then written (gen_digit_mi c 0xC1 digit i.dst i.src 0)
    else some not_supported

unfoldable pub gen_shl : GContext → Instr → Option Generated
unfolding gen_shift
gen_shl c i = gen_shift c i 4

unfoldable pub gen_shr : GContext → Instr → Option Generated
unfolding gen_shift
gen_shr c i = gen_shift c i 5

unfoldable pub gen_sar : GContext → Instr → Option Generated
unfolding gen_shift
gen_sar c i = gen_shift c i 7

unfoldable pub gen_lea : GContext → Instr → Option Generated
unfolding op_is_ind op_is_gp_reg one_of written gen_modrm
gen_lea c i = if not (op_is_ind i.src) then some not_supported else (do
  gp ← op_is_gp_reg i.dst
  if gp && one_of i.dst.type regs_32_64
      then written (gen_modrm c 0x8D i.src i.dst vt_none 0)
      else some not_supported)

unfoldable pub gen_cltq : List ℕ
gen_cltq = 0x48 ∷ 0x98 ∷ []

unfoldable pub gen_cwtl : List ℕ
gen_cwtl = 0x98 ∷ []

unfoldable pub gen_cqto : Instr → Generated
gen_cqto i =
    if i.vtype is vt_64
    then generated (0x99 ∷ [])
    else if i.vtype is vt_128
    then generated (0x48 ∷ 0x99 ∷ [])
    else not_supported
