-- ===== src/Capture/Vector.antt =====
-- src/emulate.c: vector instructions and those that are passed through.
use dbrew.Prelude.{◌||◌, Option, none, some, ltb, if◌then◌else◌, ◌>>=◌, ◌>>◌, assert, ◌is◌}
use dbrew.Emulate.Meta.{cs_dynamic, init_meta_state}
use dbrew.Emulate.Operand.{set_reg_state, apply_static_to_ind}
use dbrew.Emulate.State.{EmuState}
use dbrew.Instr.Kinds.{ot_reg32, ot_reg64, ot_enum, of_2, of_3}
use dbrew.Instr.Kinds.{oe_none, oe_mr, oe_rm, oe_rvm, sc_none}
use dbrew.Instr.Kinds.{sc_enum}
use dbrew.Instr.Copy.{copy_operand, copy_bytes}
use dbrew.Instr.Mnemonics.{it_addss, it_addsd, it_addps, it_addpd, ◌it_is◌}
use dbrew.Instr.Types.{Operand, Instr}
use dbrew.Instr.Build.{init_simple_instr}
use dbrew.Instr.Operands.{op_is_reg, op_is_ind, op_is_gp_reg}
use dbrew.Capture.Blocks.{capture}
use dbrew.Capture.Types.{RContext}

-- An operand of an instruction with its static parts applied.
unfoldable pub copy_applied : RContext → Operand → Operand → Option Operand
unfolding copy_operand apply_static_to_ind
copy_applied r dst src = do o ← copy_operand dst src; apply_static_to_ind r.world.es o

unfoldable pub capture_vec : RContext → Instr → Option RContext
unfolding init_simple_instr copy_operand copy_applied op_is_reg op_is_ind capture
capture_vec r orig = do
  assert (
      orig.type it_is it_addss
      || orig.type it_is it_addsd
      || orig.type it_is it_addps
      || orig.type it_is it_addpd)
  let i = record (init_simple_instr r.junk orig.type) { vtype = orig.vtype; form = orig.form }
  assert (op_is_reg orig.src || op_is_ind orig.src)
  assert (op_is_reg orig.dst)
  d ← copy_operand i.dst orig.dst
  s ← copy_applied r i.src orig.src
  capture r (record i { dst = d; src = s })

-- A register whose value the instruction changes becomes unknown.
unfoldable pub process_pass_through : EmuState → Instr → Option EmuState
unfolding op_is_gp_reg set_reg_state
process_pass_through es i = do
  assert (ltb 0 i.pt_len)
  if i.pt_schange is sc_none then some es else (do
    assert (i.dst.type is ot_reg32 || i.dst.type is ot_reg64)
    gp ← op_is_gp_reg i.dst
    if gp then set_reg_state es i.dst.reg.ri (init_meta_state cs_dynamic) else some es)

-- The operands that the encoding has; the one that may be in memory has its static parts applied.
unfoldable pub pass_through_operands : RContext → Instr → Instr → Option Instr
unfolding copy_operand copy_applied op_is_reg op_is_ind
pass_through_operands r i orig = elim (orig.pt_enc) [
  | oe_none ↦ some i
  | oe_mr ↦ do
    assert (op_is_reg orig.dst || op_is_ind orig.dst)
    assert (op_is_reg orig.src)
    d ← copy_applied r i.dst orig.dst
    s ← copy_operand i.src orig.src
    some (record i { form = of_2; dst = d; src = s })
  | oe_rvm ↦ do
    assert (op_is_reg orig.dst)
    assert (op_is_reg orig.src)
    assert (op_is_reg orig.src2 || op_is_ind orig.src2)
    d ← copy_operand i.dst orig.dst
    s ← copy_operand i.src orig.src
    s2 ← copy_applied r i.src2 orig.src2
    some (record i { form = of_3; dst = d; src = s; src2 = s2 })
  | oe_rm ↦ do
    assert (op_is_reg orig.dst)
    assert (op_is_reg orig.src || op_is_ind orig.src)
    d ← copy_operand i.dst orig.dst
    s ← copy_applied r i.src orig.src
    some (record i { form = of_2; dst = d; src = s })
  | _ ↦ none
]

unfoldable pub capture_pass_through : RContext → Instr → Option RContext
unfolding process_pass_through pass_through_operands init_simple_instr copy_bytes capture
capture_pass_through r orig = do
  es ← process_pass_through r.world.es orig
  let r1 = record r { world = record (r.world) { es = es } }
  let i = init_simple_instr r.junk orig.type
  i1 ←
      pass_through_operands r1
        (record i {
          vtype = orig.vtype;
          pt_len = orig.pt_len;
          pt_enc = orig.pt_enc;
          pt_pset = orig.pt_pset;
          pt_vex_p = orig.pt_vex_p;
          pt_opc = copy_bytes orig.pt_len i.pt_opc orig.pt_opc;
        })
        orig
  capture r1 i1
