-- ===== src/Capture/Captured.antt =====
-- src/emulate.c: what is captured for an instruction on general registers.
--
-- `es` of the C functions is `r->es` of the context, and a value that is changed through its pointer
-- is returned. `r.junk` is what the local instruction and the operands of `getImmOp` and `getRegOp`
-- held before.
use dbrew.Prelude.{ℕ, ◌-◌, ◌^◌, Bool, true, false, ◌&&◌, ◌||◌, Option, some, ◌==◌}
use dbrew.Prelude.{if◌then◌else◌, ◌>>=◌, ◌>>◌, assert, get_elem?, ◌is◌}
use dbrew.Emulate.Meta.{CaptureState, cs_dead, cs_dynamic, cs_enum, MetaState, init_meta_state}
use dbrew.Emulate.Meta.{cs_is_static, ms_is_static, EmuValue}
use dbrew.Emulate.Operand.{get_reg_value, get_op_value, op_state_is_tracked}
use dbrew.Emulate.Operand.{apply_static_to_ind}
use dbrew.Instr.Kinds.{ValType, vt_64}
use dbrew.Instr.Mnemonics.{InstrType, it_mov, it_lea, it_add, it_imul, it_and, it_or, it_cmp}
use dbrew.Instr.Mnemonics.{it_test, it_shl, it_shr, it_sar, ◌it_is◌}
use dbrew.Instr.Types.{Operand, Instr}
use dbrew.Instr.Build.{init_unary_instr, init_binary_instr}
use dbrew.Instr.Operands.{op_is_reg, get_reg_op, get_imm_op}
use dbrew.Instr.Registers.{get_gp_reg_type, get_reg}
use dbrew.Capture.Blocks.{capture}
use dbrew.Capture.Types.{RContext}

-- `initBinaryInstr`, `applyStaticToInd` on the operands that the tests name, and `capture`.
unfoldable pub capture_binary :
    RContext → InstrType → ValType → Operand → Operand → Bool → Bool → Option RContext
unfolding init_binary_instr apply_static_to_ind capture
capture_binary r it vt dst src apply_dst apply_src = do
  i ← init_binary_instr r.junk it vt dst src
  d ← (if apply_dst then apply_static_to_ind r.world.es i.dst else some i.dst)
  s ← (if apply_src then apply_static_to_ind r.world.es i.src else some i.src)
  capture r (record i { dst = d; src = s })

-- A `MOV` of a known value.
unfoldable pub capture_known : RContext → Operand → EmuValue → Bool → Bool → Option RContext
unfolding get_imm_op capture_binary
capture_known r dst v apply_dst apply_src = do
  o ← get_imm_op r.junk.src v.type v.val
  capture_binary r it_mov v.type dst o apply_dst apply_src

unfoldable pub capture_unary : RContext → InstrType → Operand → Option RContext
unfolding init_unary_instr apply_static_to_ind capture
capture_unary r it dst = do
  i ← init_unary_instr r.junk it dst
  d ← apply_static_to_ind r.world.es i.dst
  capture r (record i { dst = d })

-- `r->cc->force_unknown[es->depth]`.
unfoldable pub forced_unknown : RContext → Option Bool
forced_unknown r = do conf ← r.cc; get_elem? conf.force_unknown r.world.es.depth

unfoldable pub make_dynamic : EmuValue → EmuValue
make_dynamic v = record v { state = init_meta_state cs_dynamic }

unfoldable pub capture_mov : RContext → Instr → EmuValue → Option RContext
unfolding op_state_is_tracked get_imm_op capture_binary
capture_mov r orig res =
    if res.state.c_state is cs_dead
    then some r
    else if ms_is_static res.state
    then (do
      tracked ← op_state_is_tracked r.world.es orig.dst
      if tracked then some r else (do
        o ← get_imm_op r.junk.src res.type res.val
        capture_binary r orig.type orig.vtype orig.dst o true true))
    else capture_binary r orig.type orig.vtype orig.dst orig.src true true

unfoldable pub capture_cmov :
    RContext → Instr → EmuValue → MetaState → Bool → Option (RContext × EmuValue)
unfolding init_binary_instr capture_mov capture_known capture_binary op_is_reg make_dynamic
capture_cmov r orig res c_state cond = do
  assert (op_is_reg orig.dst)
  if ms_is_static c_state
      then (if cond
          then (do
            i ← init_binary_instr r.junk it_mov orig.vtype orig.dst orig.src
            r1 ← capture_mov r i res
            some (r1, res))
          else some (r, res))
      else if res.state.c_state is cs_dead
      then some (r, res)
      else if ms_is_static res.state
      then (do
        r1 ← capture_known r orig.src res false true
        r2 ← capture_binary r1 orig.type orig.vtype orig.dst orig.src false true
        some (r2, make_dynamic res))
      else (do
        r1 ← capture_binary r orig.type orig.vtype orig.dst orig.src false true
        some (r1, res))

-- A register that is known is set to its value.
unfoldable pub capture_known_reg : RContext → ValType → ℕ → Option RContext
unfolding get_reg get_gp_reg_type get_reg_op capture_known
capture_known_reg r t ri = do
  c ← get_elem? r.world.es.regs ri
  if ms_is_static c.state
      then (do
        reg ← get_reg (get_gp_reg_type t) ri
        o ← get_reg_op r.junk.dst reg
        capture_known r o (record { val = c.val; type = t; state = c.state }) false false)
      else some r

-- RI_A and RI_D.
abbrev pub ri_a : ℕ
ri_a = 0

abbrev pub ri_d : ℕ
ri_d = 2

unfoldable pub capture_idiv : RContext → Instr → CaptureState → Option RContext
unfolding get_op_value cs_is_static capture_known capture_known_reg capture_unary
capture_idiv r orig res_state = if cs_is_static res_state then some r else (do
  v ← get_op_value r.world orig.dst
  if ms_is_static v.state && v.val == 1 then some r else (do
    r1 ← (if ms_is_static v.state then capture_known r orig.dst v true false else some r)
    r2 ← capture_known_reg r1 v.type ri_a
    r3 ← capture_known_reg r2 v.type ri_d
    capture_unary r3 orig.type orig.dst))

-- Operations that leave the destination as it is when this is the known source.
unfoldable pub is_neutral : InstrType → ℕ → Bool
is_neutral it v =
    (it it_is it_add && v == 0)
    || (it it_is it_shl && v == 0)
    || (it it_is it_shr && v == 0)
    || (it it_is it_sar && v == 0)
    || (it it_is it_or && v == 0)
    || (it it_is it_and && v == 2 ^ 64 - 1)
    || (it it_is it_imul && v == 1)

-- The last part of `captureBinaryOp`: neither the result nor, from here on, the destination is
-- known.
unfoldable pub capture_binary_src : RContext → Instr → EmuValue → Option RContext
unfolding get_op_value is_neutral get_imm_op capture_binary
capture_binary_src r orig res = do
  v ← get_op_value r.world orig.src
  if ms_is_static v.state
      then (if is_neutral orig.type v.val then some r else (do
        o ← get_imm_op r.junk.src v.type v.val
        capture_binary r orig.type res.type orig.dst o true true))
      else capture_binary r orig.type res.type orig.dst orig.src true true

unfoldable pub capture_binary_op : RContext → Instr → EmuValue → Option (RContext × EmuValue)
unfolding forced_unknown make_dynamic op_state_is_tracked capture_known get_op_value capture_binary
    capture_binary_src
capture_binary_op r orig res =
    if res.state.c_state is cs_dead
    then some (r, res)
    else if ms_is_static res.state
    then (do
      forced ← forced_unknown r
      tracked ← (if forced then some false else op_state_is_tracked r.world.es orig.dst)
      if tracked then some (r, res) else (do
        r1 ← capture_known r orig.dst res true false
        some (r1, if forced then make_dynamic res else res)))
    else (do
      v ← get_op_value r.world orig.dst
      tracked ← op_state_is_tracked r.world.es orig.dst
      if tracked && ms_is_static v.state
          then (if (orig.type it_is it_add && v.val == 0) || (orig.type it_is it_imul && v.val == 1)
              then (do
                r1 ← capture_binary r it_mov v.type orig.dst orig.src true true
                some (r1, res))
              else (do
                r1 ← capture_known r orig.dst v false false
                r2 ← capture_binary_src r1 orig res
                some (r2, res)))
          else (do r1 ← capture_binary_src r orig res; some (r1, res)))

unfoldable pub capture_unary_op : RContext → Instr → EmuValue → Option (RContext × EmuValue)
unfolding forced_unknown make_dynamic capture_known capture_unary
capture_unary_op r orig res =
    if ms_is_static res.state
    then (do
      forced ← forced_unknown r
      if forced
          then (do r1 ← capture_known r orig.dst res false false; some (r1, make_dynamic res))
          else some (r, res))
    else (do r1 ← capture_unary r orig.type orig.dst; some (r1, res))

unfoldable pub capture_lea : RContext → Instr → EmuValue → Option (RContext × EmuValue)
unfolding forced_unknown make_dynamic capture_known capture_binary op_is_reg
capture_lea r orig res = do
  assert (op_is_reg orig.dst)
  if ms_is_static res.state
      then (do
        forced ← forced_unknown r
        if forced
            then (do r1 ← capture_known r orig.dst res false false; some (r1, make_dynamic res))
            else some (r, res))
      else (do r1 ← capture_binary r it_lea orig.vtype orig.dst orig.src false true; some (r1, res))

unfoldable pub capture_cmp : RContext → Instr → CaptureState → Option RContext
unfolding cs_is_static get_op_value capture_known get_imm_op capture_binary
capture_cmp r orig cs = if cs_is_static cs then some r else (do
  d ← get_op_value r.world orig.dst
  r1 ← (if ms_is_static d.state then capture_known r orig.dst d false false else some r)
  s ← get_op_value r1.world orig.src
  o ← (if ms_is_static s.state then get_imm_op r1.junk.src s.type s.val else some orig.src)
  capture_binary r1 it_cmp orig.vtype orig.dst o true true)

unfoldable pub capture_test : RContext → Instr → CaptureState → Option RContext
unfolding cs_is_static capture_binary
capture_test r orig cs =
    if cs_is_static cs
    then some r
    else capture_binary r it_test orig.vtype orig.dst orig.src true true

-- If an integer is returned and it is known, it is loaded.
unfoldable pub capture_ret : RContext → Instr → Option RContext
unfolding get_reg get_gp_reg_type get_reg_value get_reg_op capture_known capture
capture_ret r orig = do
  conf ← r.cc
  r1 ←
      (if conf.has_return_fp then some r else (do
        reg ← get_reg (get_gp_reg_type vt_64) ri_a
        v ← get_reg_value r.world.es reg vt_64
        if ms_is_static v.state
            then (do o ← get_reg_op r.junk.dst reg; capture_known r o v false false)
            else some r))
  capture r1 orig
