-- ===== src/Decode/Modrm.antt =====
-- src/decode.c: `parseModRM`. Both operands are filled in place: an argument is what stood there.
use dbrew.Prelude.{ℕ, ◌+◌, ◌/◌, ◌^◌, bit_and, Bool, ◌&&◌, ◌||◌, Option, none, some, ◌==◌, ◌!=◌}
use dbrew.Prelude.{if◌then◌else◌, ◌>>=◌, ◌>>◌, assert, ◌is◌}
use dbrew.Decode.Context.{DContext, next, next32, sign_extend8, sign_extend32}
use dbrew.Instr.Kinds.{RegType, rt_none, rt_gp64, rt_ip, ValType, vt_none, vt_8, vt_16}
use dbrew.Instr.Kinds.{vt_32, vt_64, vt_128, vt_256, vt_512, vt_enum, OpType, ot_reg8, ot_reg16}
use dbrew.Instr.Kinds.{ot_reg32, ot_reg64, ot_reg128, ot_reg256, ot_reg512, ot_ind8, ot_ind16}
use dbrew.Instr.Kinds.{ot_ind32, ot_ind64, ot_ind128, ot_ind256, ot_ind512}
use dbrew.Instr.Types.{Operand}
use dbrew.Instr.Registers.{get_gp_reg_type, get_leg_gp_reg_type, get_v_reg_type, get_reg}

-- What `parseModRM` gives back: the context behind the bytes, the operands (the second one is none
-- for a null pointer) and the digit.
pub record Parsed : Type 0 where
  pub cxt : DContext
  pub o1 : Operand
  pub o2 : Option Operand
  pub digit : ℕ

-- `ot` for a register; the vector types need a vector as second operand.
unfoldable pub parse_reg_type : ValType → ℕ → Option OpType
parse_reg_type vt_8 rts = some ot_reg8
parse_reg_type vt_16 rts = some ot_reg16
parse_reg_type vt_32 rts = some ot_reg32
parse_reg_type vt_64 rts = some ot_reg64
parse_reg_type vt_128 rts = do assert (bit_and rts 40 != 0); some ot_reg128
parse_reg_type vt_256 rts = do assert (bit_and rts 48 != 0); some ot_reg256
parse_reg_type vt_512 rts = do assert (bit_and rts 56 != 0); some ot_reg512
parse_reg_type _ rts = none

-- `ot` for memory.
unfoldable pub parse_ind_type : ValType → ℕ → Option OpType
parse_ind_type vt_8 rts = some ot_ind8
parse_ind_type vt_16 rts = some ot_ind16
parse_ind_type vt_32 rts = some ot_ind32
parse_ind_type vt_64 rts = some ot_ind64
parse_ind_type vt_128 rts = do assert (bit_and rts 5 != 0); some ot_ind128
parse_ind_type vt_256 rts = do assert (bit_and rts 6 != 0); some ot_ind256
parse_ind_type vt_512 rts = do assert (bit_and rts 7 != 0); some ot_ind512
parse_ind_type _ rts = none

-- The register type of an operand; `sel` is its three bits of `rts`, moved down.
unfoldable pub parse_rt : Bool → ValType → ℕ → RegType
unfolding get_v_reg_type get_gp_reg_type get_leg_gp_reg_type
parse_rt has_rex vt sel =
    if sel == 4
    then get_v_reg_type vt_64
    else if sel == 5
    then get_v_reg_type vt_128
    else if sel == 6
    then get_v_reg_type vt_256
    else if sel == 7
    then get_v_reg_type vt_512
    else if has_rex
    then get_gp_reg_type vt
    else get_leg_gp_reg_type vt

-- `n` with 8 added if the masked bit of the REX prefix is set.
abbrev pub rex_extend : ℕ → ℕ → ℕ → ℕ
rex_extend rex mask n = if bit_and rex mask != 0 then n + 8 else n

-- The register part, for a second operand that is not null.
unfoldable pub parse_o2 :
    DContext → ValType → ℕ → OpType → ℕ → Option Operand → Option (Option Operand)
unfolding parse_rt get_reg
parse_o2 cxt vt rts ot r none = some none
parse_o2 cxt vt rts ot r (some o2) = do
  reg ← get_reg (parse_rt cxt.has_rex vt (bit_and rts 56 / 8)) (rex_extend cxt.rex 4 r)
  some (some (record o2 { type = ot; reg = reg }))

-- The SIB byte: scale, index and base.
unfoldable pub parse_sib : DContext → Option (ℕ × ℕ × ℕ × DContext)
unfolding next
parse_sib cxt = do
  (sib, c) ← next cxt
  some (2 ^ (bit_and sib 192 / 64), rex_extend cxt.rex 2 (bit_and sib 56 / 8), bit_and sib 7, c)

-- The displacement, sign-extended.
unfoldable pub parse_disp : Bool → Bool → DContext → Option (ℕ × DContext)
unfolding next next32
parse_disp has8 has32 cxt = do
  (d8, c8) ← (if has8 then (do (b, c) ← next cxt; some (sign_extend8 b, c)) else some (0, cxt))
  if has32 then (do (w, c) ← next32 c8; some (sign_extend32 w, c)) else some (d8, c8)

-- Memory without a SIB byte.
unfoldable pub parse_plain : DContext → OpType → ℕ → ℕ → Operand → Option (Operand × DContext)
unfolding get_reg
parse_plain cxt ot mod' rm o1 = do
  (disp, c) ← parse_disp (mod' == 1) (mod' == 2 || (mod' == 0 && rm == 5)) cxt
  reg ←
      (if mod' == 0 && rm == 5 then get_reg rt_ip 0 else get_reg rt_gp64 (rex_extend cxt.rex 1 rm))
  some (record o1 { type = ot; seg = cxt.seg_ov; scale = 0; val = disp; reg = reg }, c)

-- Memory with a SIB byte.
unfoldable pub parse_with_sib : DContext → OpType → ℕ → Operand → Option (Operand × DContext)
unfolding parse_sib get_reg
parse_with_sib cxt ot mod' o1 = do
  (scale, idx, base, c) ← parse_sib cxt
  (disp, c') ← parse_disp (mod' == 1) (mod' == 2 || (base == 5 && mod' == 0)) c
  ireg ← (if idx == 4 then get_reg rt_none 0 else get_reg rt_gp64 idx)
  reg ←
      (if base == 5 && mod' == 0
        then get_reg rt_none 0
        else get_reg rt_gp64 (rex_extend cxt.rex 1 base))
  some (
    record o1 {
      type = ot;
      seg = cxt.seg_ov;
      scale = if idx == 4 then 0 else scale;
      val = disp;
      ireg = ireg;
      reg = reg;
    },
    c',
  )

unfoldable pub parse_modrm : DContext → ValType → ℕ → Operand → Option Operand → Option Parsed
unfolding next parse_rt get_reg
parse_modrm cxt vt0 rts o1 o2 = do
  (modrm, c) ← next cxt
  let mod' = bit_and modrm 192 / 64
  let r = bit_and modrm 56 / 8
  let rm = bit_and modrm 7
  let vt = if vt0 is vt_none then (if bit_and cxt.rex 8 != 0 then vt_64 else vt_32) else vt0
  rot ← parse_reg_type vt rts
  o2' ← parse_o2 c vt rts rot r o2
  if mod' == 3
      then (do
        reg ← get_reg (parse_rt cxt.has_rex vt (bit_and rts 7)) (rex_extend cxt.rex 1 rm)
        some (record { cxt = c; o1 = record o1 { type = rot; reg = reg }; o2 = o2'; digit = r }))
      else (do
        iot ← parse_ind_type vt rts
        (o1', c') ← (if rm == 4 then parse_with_sib c iot mod' o1 else parse_plain c iot mod' rm o1)
        some (record { cxt = c'; o1 = o1'; o2 = o2'; digit = r }))
