-- ===== src/Process/Finish.antt =====
-- The end of an instruction on registers with a known result.
use dbrew.Prelude.{ℕ, ◌%◌, ◌^◌, ◌≡◌, refl, inl, inr, true, false, some, arith, get_elem?, ◌is◌}
use dbrew.Emulate.Meta.{CaptureState, cs_dead, cs_dynamic, cs_static, cs_stackrelative}
use dbrew.Emulate.Meta.{cs_static2, cs_enum, cs_is_static, ms_is_static, EmuValue}
use dbrew.Emulate.Operand.{op_state_is_tracked}
use dbrew.Emulate.State.{Cell, EmuState}
use dbrew.Config.Ranges.{CaptureConfig}
use dbrew.Instr.Kinds.{ValType}
use dbrew.Instr.Types.{Operand, Instr}
use dbrew.Instr.Operands.{op_is_imm, op_is_reg, op_is_gp_reg}
use dbrew.Capture.Captured.{forced_unknown, capture_binary_op}
use dbrew.Capture.Types.{RContext}
use dbrew.Process.Step.{with_es}
use dbrew.Process.Known.{IsRegOf, put_reg, set_result-IsRegOf}
use dbrew.Process.Arith.{finish_binary}

-- The values of a register may stay known at the call depth.
abbrev pub IsNotForced : RContext → Type 0
IsNotForced r =
    (conf : CaptureConfig) × (r.cc ≡ some conf)
    × (get_elem? conf.force_unknown r.world.es.depth ≡ some false)

static_not_dead : (s : CaptureState) → cs_is_static s ≡ true → (s is cs_dead) ≡ false
unfolding cs_is_static
static_not_dead cs_dead h = absurd (ground arith)
static_not_dead cs_dynamic h = refl
static_not_dead cs_static h = refl
static_not_dead cs_stackrelative h = refl
static_not_dead cs_static2 h = refl

op_is_gp_reg-IsRegOf :
    (es : EmuState) (o : Operand) (t : ValType) (w : ℕ) (c : Cell)
    → IsRegOf es o t w c
    → (op_is_gp_reg o ≡ some true) × (op_is_imm o ≡ false)
unfolding op_is_gp_reg op_is_reg op_is_imm
op_is_gp_reg-IsRegOf es o t w c h =
    let g = h.gp in
    elim (h.width) [
      | inl (a, _, _) ↦ (rw (a, g) refl, rw a refl)
      | inr (inl (a, _, _)) ↦ (rw (a, g) refl, rw a refl)
      | inr (inr (inl (a, _, _))) ↦ (rw (a, g) refl, rw a refl)
      | inr (inr (inr (a, _, _))) ↦ (rw (a, g) refl, rw a refl)
    ]

-- The end of a binary operation with a known result.
pub finish_binary-known :
    (r : RContext) (i : Instr) (v : EmuValue) (w : ℕ) (c : Cell)
    → IsNotForced r
    → IsRegOf r.world.es i.dst v.type w c
    → ms_is_static v.state ≡ true
    → finish_binary r i v
      ≡ some (
          with_es r
            (put_reg r.world.es i.dst.reg.ri (record { val = v.val % 2 ^ w; state = v.state })))
unfolding finish_binary capture_binary_op forced_unknown op_state_is_tracked cs_is_static
    ms_is_static
finish_binary-known r i v w c (conf, ec, ef) h s =
    let d = static_not_dead v.state.c_state s in
    let (g, m) = op_is_gp_reg-IsRegOf r.world.es i.dst v.type w c h in
    let f : forced_unknown r ≡ some false = rw (forced_unknown, ec) ef in
    let t : op_state_is_tracked r.world.es i.dst ≡ some true =
      rw (op_state_is_tracked, m, g) refl in
    let b : capture_binary_op r i v ≡ some (r, v) = ground (arith, d, s, f, t) in
    rw (finish_binary, b) (set_result-IsRegOf r v i.dst w c h)
