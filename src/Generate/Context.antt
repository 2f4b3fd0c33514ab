-- ===== src/Generate/Context.antt =====
-- src/generate.c: the generator context and the register numbers of an encoding.
--
-- A generator writes its bytes to `c->buf` and returns their number; here it returns the list of
-- the bytes. `instr`, `buf` and `e` of the context are arguments and results of the functions that
-- use them.
use dbrew.Prelude.{ℕ, Option, none, some, List, [], ltb, ◌>>=◌, ◌>>◌, assert, ◌is◌}
use dbrew.Instr.Kinds.{rt_gp64, rt_enum, ValType, vt_none, OpSegOverride}
use dbrew.Instr.Kinds.{oso_none, VexPrefix, vex_no}
use dbrew.Instr.Kinds.{OperandEncoding, oe_invalid}
use dbrew.Instr.Types.{ri_gp_max, Reg, ps_no}
use dbrew.Instr.Registers.{reg_is_gp, reg_is_v}

-- `GContext`. `b` holds the `blen` valid bytes; `opc` is none for -1.
pub record GContext : Type 0 where
  pub vp : VexPrefix
  pub vvvv : ℕ
  pub ps : ℕ
  pub rex : ℕ
  pub so : OpSegOverride
  pub b : List ℕ
  pub opc : Option ℕ
  pub oe : OperandEncoding
  pub vt : ValType
  pub flags : ℕ

-- `initGContext`; what stood in `b` beyond `blen` is never read.
abbrev pub init_gcontext : GContext
init_gcontext = record {
  vp = vex_no;
  vvvv = 0;
  ps = ps_no;
  rex = 0;
  so = oso_none;
  b = [];
  opc = none;
  oe = oe_invalid;
  vt = vt_none;
  flags = 0;
}

-- REX_MASK_B, REX_MASK_X, REX_MASK_R, REX_MASK_W.
abbrev pub rex_mask_b : ℕ
rex_mask_b = 1

abbrev pub rex_mask_x : ℕ
rex_mask_x = 2

abbrev pub rex_mask_r : ℕ
rex_mask_r = 4

abbrev pub rex_mask_w : ℕ
rex_mask_w = 8

-- GEN_66OnVT16, GEN_DefOpVT64.
abbrev pub gen_66_on_vt16 : ℕ
gen_66_on_vt16 = 1

abbrev pub gen_def_op_vt64 : ℕ
gen_def_op_vt64 = 2

unfoldable pub gp_reg_encoding : Reg → Option ℕ
unfolding reg_is_gp
gp_reg_encoding r = do gp ← reg_is_gp r; assert gp; some r.ri

unfoldable pub gp64_reg_encoding : Reg → Option ℕ
gp64_reg_encoding r = do assert (r.rt is rt_gp64); assert (ltb r.ri ri_gp_max); some r.ri

unfoldable pub v_reg_encoding : Reg → Option ℕ
unfolding reg_is_v
v_reg_encoding r = do v ← reg_is_v r; assert v; some r.ri

unfoldable pub set_gen_info : GContext → ℕ → ℕ → OperandEncoding → ValType → GContext
set_gen_info c ps opc oe vt = record c { ps = ps; oe = oe; vt = vt; opc = some opc }
