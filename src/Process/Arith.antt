-- ===== src/Process/Arith.antt =====
-- src/emulate.c, `processInstr`: arithmetic and bitwise instructions. Signed overflow is taken to
-- wrap.
use dbrew.Prelude.{ℕ, ◌+◌, ◌-◌, ◌*◌, ◌/◌, ◌%◌, ◌^◌, Bool, true, false, ◌&&◌, ◌||◌, Option, none}
use dbrew.Prelude.{some, ltb, ◌==◌, ◌!=◌, if◌then◌else◌, ◌>>=◌, ◌>>◌, assert, get_elem?, ◌is◌}
use dbrew.Emulate.Meta.{cs_static, MetaState, init_meta_state, ms_is_static, EmuValue}
use dbrew.Emulate.Meta.{combine_state}
use dbrew.Emulate.Operand.{get_op_value, set_reg_state, set_reg_val}
use dbrew.Emulate.Flags.{set_flags_sub, set_flags_add, bitwise_result, set_flags_bit}
use dbrew.Decode.Context.{sign_extend8, sign_extend32}
use dbrew.Instr.Kinds.{ValType, vt_8, vt_16, vt_32, vt_64, vt_enum, OpType, ot_imm8}
use dbrew.Instr.Kinds.{ot_imm32, ot_enum, of_2, of_3}
use dbrew.Instr.Mnemonics.{InstrType, it_and, it_shl, it_shr, it_sar}
use dbrew.Instr.Types.{Operand, Instr}
use dbrew.Instr.Operands.{op_val_type, op_is_gp_reg, op_is_equal}
use dbrew.Capture.Captured.{ri_a, ri_d, capture_idiv, capture_binary_op, capture_unary_op}
use dbrew.Capture.Captured.{capture_cmp, capture_test}
use dbrew.Capture.Types.{et_unsupported_operands, RContext}
use dbrew.Process.Step.{set_emulator_error, with_es, set_result, shift_right, val_bits, op_bits}

-- A source that is an 8-bit immediate is extended to the type of the destination.
unfoldable pub extend_imm8 : Operand → ValType → EmuValue → EmuValue
extend_imm8 src vt v =
    if src.type is ot_imm8 then record v { val = sign_extend8 (v.val % 2 ^ 8); type = vt } else v

-- For SUB, one of 32 bits too.
unfoldable pub extend_imm : Operand → ValType → EmuValue → EmuValue
unfolding extend_imm8
extend_imm src vt v =
    if src.type is ot_imm32 && vt is vt_64
    then record v { val = sign_extend32 (v.val % 2 ^ 32); type = vt }
    else extend_imm8 src vt v

-- The result of a binary operation is captured and written.
unfoldable pub finish_binary : RContext → Instr → EmuValue → Option RContext
unfolding capture_binary_op set_result
finish_binary r i v = do (r1, v1) ← capture_binary_op r i v; set_result r1 v1 i.dst

unfoldable pub finish_unary : RContext → Instr → EmuValue → Option RContext
unfolding capture_unary_op set_result
finish_unary r i v = do (r1, v1) ← capture_unary_op r i v; set_result r1 v1 i.dst

-- A value of a type with the state that two operands give it.
abbrev pub combined : EmuValue → EmuValue → ValType → ℕ → EmuValue
combined v1 v2 t v = record {
  val = v;
  type = t;
  state = init_meta_state (combine_state v1.state.c_state v2.state.c_state false);
}

unfoldable pub process_add : RContext → Instr → Option RContext
unfolding get_op_value op_val_type extend_imm8 set_flags_add val_bits finish_binary
    set_emulator_error
process_add r i = do
  v1 ← get_op_value r.world i.dst
  v ← get_op_value r.world i.src
  vt ← op_val_type i.dst
  let v2 = extend_imm8 i.src vt v
  es ← set_flags_add r.world.es v1 v2
  assert (v1.type is v2.type)
  let r1 = with_es r es
  elim (val_bits vt) [
    | none ↦ some (set_emulator_error r1 et_unsupported_operands)
    | some w ↦ finish_binary r1 i (combined v1 v2 vt ((v1.val + v2.val) % 2 ^ w))
  ]

unfoldable pub process_sub : RContext → Instr → Option RContext
unfolding get_op_value op_val_type extend_imm set_flags_sub val_bits finish_binary
    set_emulator_error
process_sub r i = do
  v1 ← get_op_value r.world i.dst
  v ← get_op_value r.world i.src
  vt ← op_val_type i.dst
  let v2 = extend_imm i.src vt v
  (_, es) ← set_flags_sub r.world.es v1 v2
  assert (v1.type is v2.type)
  let r1 = with_es r es
  elim (val_bits vt) [
    | none ↦ some (set_emulator_error r1 et_unsupported_operands)
    | some w ↦ finish_binary r1 i (combined v1 v2 vt ((v1.val + 2 ^ 64 - v2.val) % 2 ^ w))
  ]

unfoldable pub process_cmp : RContext → Instr → Option RContext
unfolding get_op_value op_val_type extend_imm8 set_flags_sub capture_cmp
process_cmp r i = do
  v1 ← get_op_value r.world i.dst
  v ← get_op_value r.world i.src
  vt ← op_val_type i.dst
  (cs, es) ← set_flags_sub r.world.es v1 (extend_imm8 i.src vt v)
  capture_cmp (with_es r es) i cs

unfoldable pub process_test : RContext → Instr → Option RContext
unfolding get_op_value set_flags_bit capture_test
process_test r i = do
  v1 ← get_op_value r.world i.dst
  v2 ← get_op_value r.world i.src
  assert (v1.type is v2.type)
  (cs, es) ← set_flags_bit r.world.es it_and v1 v2 false
  capture_test (with_es r es) i cs

unfoldable pub process_bitwise : RContext → Instr → Option RContext
unfolding get_op_value op_is_equal set_flags_bit bitwise_result finish_binary
process_bitwise r i = do
  v1 ← get_op_value r.world i.dst
  v2 ← get_op_value r.world i.src
  assert (v1.type is v2.type)
  same ← op_is_equal i.dst i.src
  (cs, es) ← set_flags_bit r.world.es i.type v1 v2 same
  v ← bitwise_result i.type v1.val v2.val
  finish_binary (with_es r es) i (record { val = v; type = v1.type; state = init_meta_state cs })

-- DEC, INC and NEG, with the result from the value of the operand and its width.
unfoldable pub process_unary :
    RContext → Instr → (ℕ → ℕ → ℕ) → (EmuValue → MetaState) → Option RContext
unfolding get_op_value op_bits finish_unary set_emulator_error
process_unary r i f state = do
  v1 ← get_op_value r.world i.dst
  elim (op_bits i.dst.type) [
    | none ↦ some (set_emulator_error r et_unsupported_operands)
    | some w ↦
        finish_unary r i (record { val = f (v1.val) w % 2 ^ w; type = v1.type; state = state v1 })
  ]

unfoldable pub process_dec : RContext → Instr → Option RContext
unfolding process_unary
process_dec r i = process_unary r i (λ v w. v + 2 ^ w - 1) (λ v. init_meta_state (v.state.c_state))

unfoldable pub process_inc : RContext → Instr → Option RContext
unfolding process_unary
process_inc r i = process_unary r i (λ v w. v + 1) (λ v. init_meta_state (v.state.c_state))

unfoldable pub process_neg : RContext → Instr → Option RContext
unfolding process_unary
process_neg r i = process_unary r i (λ v w. 2 ^ w - v % 2 ^ w) (λ v. v.state)

-- The factors of IMUL, in the forms that are emulated.
unfoldable pub imul_operands : RContext → Instr → Option (EmuValue × EmuValue)
unfolding get_op_value op_is_gp_reg
imul_operands r i = elim (i.form) [
  | of_2 ↦ do
    v1 ← get_op_value r.world i.dst
    v2 ← get_op_value r.world i.src
    gp ← op_is_gp_reg i.dst
    assert gp
    some (v1, v2)
  | of_3 ↦ do
    v1 ← get_op_value r.world i.src
    v2 ← get_op_value r.world i.src2
    gp ← op_is_gp_reg i.dst
    assert gp
    some (v1, v2)
  | _ ↦ none
]

-- The product as it is stored: one of 32 bits is extended to 64.
unfoldable pub imul_result : OpType → ℕ → ℕ → Option (ValType × ℕ)
unfolding op_bits
imul_result t a b = do
  w ← op_bits t
  some (
    if w == 32 then vt_32 else vt_64,
    if w == 32 then sign_extend32 (a * b % 2 ^ 32) else a * b % 2 ^ 64,
  )

unfoldable pub is_static_zero : EmuValue → Bool
unfolding ms_is_static
is_static_zero v = ms_is_static v.state && v.val == 0

unfoldable pub process_imul : RContext → Instr → Option RContext
unfolding imul_operands imul_result is_static_zero finish_binary set_emulator_error
process_imul r i = do
  (v1, v2) ← imul_operands r i
  assert (v1.type is v2.type)
  elim (imul_result i.src.type v1.val v2.val) [
    | none ↦ some (set_emulator_error r et_unsupported_operands)
    | some (t, v) ↦
        let cs =
          if is_static_zero v1 || is_static_zero v2
          then cs_static
          else combine_state v1.state.c_state v2.state.c_state false in
        finish_binary r i (record { val = v; type = t; state = init_meta_state cs })
  ]

-- The quotient and the remainder of IDIV, from the registers D and A and the divisor.
unfoldable pub idiv_result : ℕ → ℕ → ℕ → ℕ → Option (ℕ × ℕ)
idiv_result w d a v =
    if w == 32
    then (do
      let n = (d * 2 ^ 32 + a % 2 ^ 32) % 2 ^ 64
      let s = sign_extend32 (v % 2 ^ 32)
      assert (s != 0)
      assert (ltb (n / s) (2 ^ 31))
      some (n / s, n % s))
    else some (a / v, a % v)

unfoldable pub process_idiv1 : RContext → Instr → Option RContext
unfolding get_op_value op_bits idiv_result capture_idiv set_emulator_error set_reg_val set_reg_state
process_idiv1 r i = do
  v1 ← get_op_value r.world i.dst
  assert (v1.val != 0)
  d ← get_elem? r.world.es.regs ri_d
  a ← get_elem? r.world.es.regs ri_a
  let cs0 = combine_state d.state.c_state a.state.c_state true
  let cs = combine_state cs0 v1.state.c_state false
  elim (op_bits i.dst.type) [
    | none ↦ some (set_emulator_error r et_unsupported_operands)
    | some w ↦ do
      (quotient, remainder) ← idiv_result w d.val a.val v1.val
      r1 ← capture_idiv r i cs
      es1 ← set_reg_val r1.world.es ri_a quotient
      es2 ← set_reg_val es1 ri_d remainder
      es3 ← set_reg_state es2 ri_d (init_meta_state cs)
      es4 ← set_reg_state es3 ri_a (init_meta_state cs)
      some (with_es r1 es4)
  ]

-- The result of a shift of a value of `w` bits; the count is taken modulo the width.
unfoldable pub shift_result : InstrType → ℕ → ℕ → ℕ → Option ℕ
unfolding shift_right
shift_result it_shl w v k = some (v * 2 ^ (k % w) % 2 ^ w)
shift_result it_shr w v k = some (v / 2 ^ (k % w) % 2 ^ w)
shift_result it_sar w v k = some (shift_right w v (k % w))
shift_result _ w v k = none

unfoldable pub shift_bits : ValType → Option ℕ
shift_bits vt_8 = some 8
shift_bits vt_16 = some 16
shift_bits vt_32 = some 32
shift_bits vt_64 = some 64
shift_bits _ = none

unfoldable pub process_shift : RContext → Instr → Option RContext
unfolding get_op_value op_val_type shift_bits shift_result finish_binary set_emulator_error
process_shift r i = do
  v1 ← get_op_value r.world i.dst
  v2 ← get_op_value r.world i.src
  vt ← op_val_type i.dst
  elim (shift_bits vt) [
    | none ↦ some (set_emulator_error r et_unsupported_operands)
    | some w ↦ do v ← shift_result i.type w v1.val v2.val; finish_binary r i (combined v1 v2 vt v)
  ]
