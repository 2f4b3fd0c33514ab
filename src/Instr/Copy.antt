-- ===== src/Instr/Copy.antt =====
-- src/instr.c: copying and overwriting operands and instructions. The first argument is what stood
-- at the destination.
use dbrew.Prelude.{ℕ, zero, suc, ◌^◌, Bool, true, false, ◌&&◌, ◌||◌, Option, none, some, List}
use dbrew.Prelude.{◌∷◌, ltb, ◌==◌, if◌then◌else◌, ◌>>=◌, ◌>>◌, assert, ◌is◌}
use dbrew.Instr.Kinds.{rt_none, rt_gp8, rt_gp16, rt_gp32, rt_gp64, rt_ip, rt_mmx, rt_xmm}
use dbrew.Instr.Kinds.{rt_ymm, rt_zmm, rt_enum, ValType, vt_8, vt_16, vt_32, vt_64, vt_128}
use dbrew.Instr.Kinds.{vt_256, vt_512, OpType, ot_none, ot_imm8, ot_imm16, ot_imm32}
use dbrew.Instr.Kinds.{ot_reg8, ot_reg16, ot_reg32, ot_reg64, ot_reg128, ot_reg256, ot_reg512}
use dbrew.Instr.Kinds.{ot_ind8, ot_ind16, ot_ind32, ot_ind64, ot_ind128, ot_ind256}
use dbrew.Instr.Kinds.{of_none, of_0, of_1, of_2, of_3}
use dbrew.Instr.Mnemonics.{InstrType, it_jo, it_jno, it_jc, it_jnc, it_jz, it_jnz, it_jbe}
use dbrew.Instr.Mnemonics.{it_ja, it_js, it_jns, it_jp, it_jnp, it_jl, it_jge, it_jle, it_jg}
use dbrew.Instr.Types.{Operand, Instr}
use dbrew.Instr.Operands.{op_is_imm, op_is_reg, op_is_ind, op_is_v_reg, get_imm_op_type}

-- The assertions on the value of an immediate; the cases of the C code fall through.
unfoldable pub imm_fits : OpType → ℕ → Bool
imm_fits ot_imm8 v = ltb v (2 ^ 8) && ltb v (2 ^ 16) && ltb v (2 ^ 32)
imm_fits ot_imm16 v = ltb v (2 ^ 16) && ltb v (2 ^ 32)
imm_fits ot_imm32 v = ltb v (2 ^ 32)
imm_fits _ v = true

unfoldable pub copy_ind : Operand → Operand → Option Operand
copy_ind dst src = do
  assert (src.reg.rt is rt_none || src.reg.rt is rt_ip || src.reg.rt is rt_gp64)
  let dst' = record dst {
    type = src.type;
    reg = src.reg;
    val = src.val;
    seg = src.seg;
    scale = src.scale;
  }
  if ltb 0 src.scale
      then (do
        assert (src.scale == 1 || src.scale == 2 || src.scale == 4 || src.scale == 8)
        assert (src.ireg.rt is rt_gp64)
        some (record dst' { ireg = src.ireg }))
      else some dst'

unfoldable pub copy_operand : Operand → Operand → Option Operand
unfolding imm_fits copy_ind op_is_imm op_is_reg op_is_ind
copy_operand dst src =
    if op_is_imm src
    then (do
      assert (imm_fits src.type src.val)
      some (record dst { type = src.type; val = src.val }))
    else if op_is_reg src
    then some (record dst { type = src.type; reg = src.reg })
    else if op_is_ind src
    then copy_ind dst src
    else none

-- `opOverwriteType` on a register operand. For the vector widths it asserts that the result is a
-- vector register; that fails at `VT_512`, as `opIsReg` does not list `OT_Reg512`.
unfoldable pub overwrite_reg_type : Operand → ValType → Option Operand
unfolding op_is_v_reg
overwrite_reg_type o vt_8 = some (record o { type = ot_reg8; reg = record (o.reg) { rt = rt_gp8 } })
overwrite_reg_type o vt_16 =
    some (record o { type = ot_reg16; reg = record (o.reg) { rt = rt_gp16 } })
overwrite_reg_type o vt_32 =
    some (record o { type = ot_reg32; reg = record (o.reg) { rt = rt_gp32 } })
overwrite_reg_type o vt_64 = do
  v ← op_is_v_reg (record o { type = ot_reg64 })
  some (record o { type = ot_reg64; reg = record (o.reg) { rt = if v then rt_mmx else rt_gp64 } })
overwrite_reg_type o vt_128 = do
  let o' = record o { type = ot_reg128; reg = record (o.reg) { rt = rt_xmm } }
  v ← op_is_v_reg o'
  assert v
  some o'
overwrite_reg_type o vt_256 = do
  let o' = record o { type = ot_reg256; reg = record (o.reg) { rt = rt_ymm } }
  v ← op_is_v_reg o'
  assert v
  some o'
overwrite_reg_type o vt_512 = do
  let o' = record o { type = ot_reg512; reg = record (o.reg) { rt = rt_zmm } }
  v ← op_is_v_reg o'
  assert v
  some o'
overwrite_reg_type o _ = none

unfoldable pub ind_op_type : ValType → Option OpType
ind_op_type vt_8 = some ot_ind8
ind_op_type vt_16 = some ot_ind16
ind_op_type vt_32 = some ot_ind32
ind_op_type vt_64 = some ot_ind64
ind_op_type vt_128 = some ot_ind128
ind_op_type vt_256 = some ot_ind256
ind_op_type _ = none

unfoldable pub op_overwrite_type : Operand → ValType → Option Operand
unfolding op_is_imm op_is_reg op_is_ind overwrite_reg_type ind_op_type get_imm_op_type
op_overwrite_type o vt =
    if op_is_imm o
    then (do t ← get_imm_op_type vt; some (record o { type = t }))
    else if op_is_reg o
    then overwrite_reg_type o vt
    else if op_is_ind o
    then (do t ← ind_op_type vt; some (record o { type = t }))
    else none

unfoldable pub instr_is_jcc : InstrType → Bool
instr_is_jcc it_jo = true
instr_is_jcc it_jno = true
instr_is_jcc it_jc = true
instr_is_jcc it_jnc = true
instr_is_jcc it_jz = true
instr_is_jcc it_jnz = true
instr_is_jcc it_jbe = true
instr_is_jcc it_ja = true
instr_is_jcc it_js = true
instr_is_jcc it_jns = true
instr_is_jcc it_jp = true
instr_is_jcc it_jnp = true
instr_is_jcc it_jl = true
instr_is_jcc it_jge = true
instr_is_jcc it_jle = true
instr_is_jcc it_jg = true
instr_is_jcc _ = false

-- The loop that copies the first `n` opcode bytes.
unfoldable pub copy_bytes : ℕ → List ℕ → List ℕ → List ℕ
copy_bytes zero dst src = dst
copy_bytes (suc n) (d ∷ dst) (s ∷ src) = s ∷ copy_bytes n dst src
copy_bytes (suc n) dst src = dst

-- The operands that `copyInstr` copies: as many as the form has, the others get no type.
unfoldable pub copy_operands : Instr → Instr → Option Instr
unfolding copy_operand
copy_operands dst src =
    let d = record (dst.dst) { type = ot_none } in
    let s = record (dst.src) { type = ot_none } in
    let s2 = record (dst.src2) { type = ot_none } in
    elim (src.form) [
      | of_0 ↦ some (record dst { dst = d; src = s; src2 = s2 })
      | of_1 ↦ do d' ← copy_operand d src.dst; some (record dst { dst = d'; src = s; src2 = s2 })
      | of_2 ↦ do
        s' ← copy_operand s src.src
        d' ← copy_operand d src.dst
        some (record dst { dst = d'; src = s'; src2 = s2 })
      | of_3 ↦ do
        s2' ← copy_operand s2 src.src2
        s' ← copy_operand s src.src
        d' ← copy_operand d src.dst
        some (record dst { dst = d'; src = s'; src2 = s2' })
      | of_none ↦ none
    ]

unfoldable pub copy_passthrough : Instr → Instr → Instr
unfolding copy_bytes
copy_passthrough dst src =
    let dst' = record dst { pt_len = src.pt_len } in
    if ltb 0 src.pt_len
    then record dst' {
      pt_pset = src.pt_pset;
      pt_vex_p = src.pt_vex_p;
      pt_enc = src.pt_enc;
      pt_schange = src.pt_schange;
      pt_opc = copy_bytes src.pt_len dst.pt_opc src.pt_opc;
    }
    else dst'

unfoldable pub copy_instr : Instr → Instr → Option Instr
unfolding copy_operands copy_passthrough
copy_instr dst src = do
  dst' ←
      copy_operands
        (record dst {
          addr = src.addr;
          len = src.len;
          type = src.type;
          vtype = src.vtype;
          form = src.form;
        })
        src
  some (copy_passthrough dst' src)
