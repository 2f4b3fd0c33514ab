-- ===== src/Instr/Registers.antt =====
-- src/instr.c: register types, value types and register indexes.
use dbrew.Prelude.{ℕ, Bool, true, false, not, ◌||◌, Option, none, some, ltb, ◌==◌}
use dbrew.Prelude.{if◌then◌else◌, ◌>>◌, assert, ◌is◌}
use dbrew.Instr.Kinds.{RegType, rt_none, rt_gp8leg, rt_gp8, rt_gp16, rt_gp32, rt_gp64, rt_flag}
use dbrew.Instr.Kinds.{rt_ip, rt_x87, rt_mmx, rt_xmm, rt_ymm, rt_zmm, rt_enum, ValType, vt_none}
use dbrew.Instr.Kinds.{vt_1, vt_8, vt_16, vt_32, vt_64, vt_80, vt_128, vt_256, vt_512}
use dbrew.Instr.Types.{ri_none, ri_gp_max, ri_mm_max, ri_xmm_max, ri_zmm_max, Reg}

unfoldable pub get_gp_reg_type : ValType → RegType
get_gp_reg_type vt_8 = rt_gp8
get_gp_reg_type vt_16 = rt_gp16
get_gp_reg_type vt_32 = rt_gp32
get_gp_reg_type vt_64 = rt_gp64
get_gp_reg_type _ = rt_none

unfoldable pub get_leg_gp_reg_type : ValType → RegType
get_leg_gp_reg_type vt_8 = rt_gp8leg
get_leg_gp_reg_type vt_16 = rt_gp16
get_leg_gp_reg_type vt_32 = rt_gp32
get_leg_gp_reg_type vt_64 = rt_gp64
get_leg_gp_reg_type _ = rt_none

unfoldable pub get_v_reg_type : ValType → RegType
get_v_reg_type vt_64 = rt_mmx
get_v_reg_type vt_128 = rt_xmm
get_v_reg_type vt_256 = rt_ymm
get_v_reg_type vt_512 = rt_zmm
get_v_reg_type _ = rt_none

unfoldable pub reg_val_type_t : RegType → ValType
reg_val_type_t rt_flag = vt_1
reg_val_type_t rt_gp8 = vt_8
reg_val_type_t rt_gp8leg = vt_8
reg_val_type_t rt_gp16 = vt_16
reg_val_type_t rt_gp32 = vt_32
reg_val_type_t rt_gp64 = vt_64
reg_val_type_t rt_ip = vt_64
reg_val_type_t rt_x87 = vt_80
reg_val_type_t rt_mmx = vt_64
reg_val_type_t rt_xmm = vt_128
reg_val_type_t rt_ymm = vt_256
reg_val_type_t rt_zmm = vt_512
reg_val_type_t rt_none = vt_none

unfoldable pub reg_val_type : Reg → ValType
unfolding reg_val_type_t
reg_val_type r = reg_val_type_t r.rt

unfoldable pub reg_type_is_gp : RegType → Bool
reg_type_is_gp rt =
    if rt is rt_gp8leg || rt is rt_gp8 || rt is rt_gp16 || rt is rt_gp32 || rt is rt_gp64
    then true
    else false

unfoldable pub reg_type_is_v : RegType → Bool
reg_type_is_v rt_mmx = true
reg_type_is_v rt_xmm = true
reg_type_is_v rt_ymm = true
reg_type_is_v rt_zmm = true
reg_type_is_v _ = false

-- `none` is the failed assertion that the index is in range.
unfoldable pub reg_is_gp : Reg → Option Bool
unfolding reg_type_is_gp
reg_is_gp r =
    if reg_type_is_gp r.rt then (do assert (ltb r.ri ri_gp_max); some true) else some false

-- The limit that `regIsV` asserts for the index, by register type; `none` if it is no vector.
unfoldable pub v_index_limit : RegType → Option ℕ
v_index_limit rt_mmx = some ri_mm_max
v_index_limit rt_xmm = some ri_xmm_max
v_index_limit rt_ymm = some ri_xmm_max
v_index_limit rt_zmm = some ri_zmm_max
v_index_limit _ = none

unfoldable pub reg_is_v : Reg → Option Bool
unfolding v_index_limit
reg_is_v r = elim (v_index_limit r.rt) [
  | some limit ↦ do assert (ltb r.ri limit); some true
  | none ↦ some false
]

unfoldable pub reg_gp64_index : Reg → Option ℕ
reg_gp64_index r =
    if r.rt is rt_gp64 then (do assert (ltb r.ri ri_gp_max); some r.ri) else some ri_none

unfoldable pub reg_v_index : Reg → Option ℕ
reg_v_index r =
    if r.rt is rt_xmm || r.rt is rt_ymm || r.rt is rt_zmm
    then (do assert (ltb r.ri ri_xmm_max); some r.ri)
    else some ri_none

-- The assertion of `getReg` on the index, by register type.
unfoldable pub reg_index_ok : RegType → ℕ → Bool
reg_index_ok rt_none ri = ri == 0
reg_index_ok rt_ip ri = ri == 0
reg_index_ok rt_gp8leg ri = ltb ri 8
reg_index_ok rt_mmx ri = ltb ri 8
reg_index_ok rt_gp8 ri = ltb ri 16
reg_index_ok rt_gp16 ri = ltb ri 16
reg_index_ok rt_gp32 ri = ltb ri 16
reg_index_ok rt_gp64 ri = ltb ri 16
reg_index_ok rt_xmm ri = ltb ri 16
reg_index_ok rt_ymm ri = ltb ri 16
reg_index_ok _ ri = false

unfoldable pub get_reg : RegType → ℕ → Option Reg
unfolding reg_index_ok
get_reg rt ri = do assert (reg_index_ok rt ri); some (record { rt = rt; ri = ri })

unfoldable pub reg_is_equal : Reg → Reg → Bool
reg_is_equal r1 r2 =
    if not (r1.rt is r2.rt)
    then false
    else if r1.rt is rt_none
    then false
    else if r2.rt is rt_none
    then false
    else r1.ri == r2.ri
