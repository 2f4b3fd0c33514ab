-- ===== src/Process/Stack.antt =====
-- src/emulate.c, `processInstr`: the stack, calls and returns.
use dbrew.Prelude.{ℕ, zero, suc, ◌+◌, ◌-◌, ◌%◌, ◌^◌, true, not, Option, none, some, List, []}
use dbrew.Prelude.{◌∷◌, ltb, leb, ◌!=◌, if◌then◌else◌, ◌>>=◌, ◌>>◌, assert, length, get_elem?}
use dbrew.Prelude.{set}
use dbrew.Emulate.Meta.{cs_dead, init_meta_state, ms_is_static, EmuValue, emu_value}
use dbrew.Emulate.Operand.{get_mem_value, set_mem_value, set_mem_state, get_op_value}
use dbrew.Emulate.Operand.{set_reg_state, set_reg_val}
use dbrew.Emulate.State.{EmuState}
use dbrew.Decode.Context.{sign_extend8, sign_extend32}
use dbrew.Instr.Kinds.{rt_gp64, ValType, vt_none, vt_8, vt_16, vt_32, vt_64, ot_imm8, ot_imm16}
use dbrew.Instr.Kinds.{ot_imm32, ot_imm64, ot_reg16, ot_reg64, ot_ind16, ot_ind64}
use dbrew.Instr.Mnemonics.{InstrType, it_hint_call, it_hint_ret, it_push, it_pop, it_mov}
use dbrew.Instr.Types.{ri_sp, ri_bp, Instr}
use dbrew.Instr.Build.{init_simple_instr, init_unary_instr, init_binary_instr}
use dbrew.Instr.Operands.{get_reg_op, get_imm_op}
use dbrew.Instr.Registers.{get_reg}
use dbrew.Capture.Blocks.{capture}
use dbrew.Capture.Types.{et_buffer_overflow, et_unsupported_operands, et_bad_operands, RContext}
use dbrew.Process.Moves.{process_mov}
use dbrew.Process.Step.{set_emulator_error, with_es, set_result, next_addr}

-- MAX_CALLDEPTH.
abbrev pub max_calldepth : ℕ
max_calldepth = 5

-- `emuValue` of the stack pointer.
unfoldable pub stack_pointer : EmuState → Option EmuValue
unfolding emu_value
stack_pointer es = do c ← get_elem? es.regs ri_sp; some (emu_value c.val vt_64 c.state)

-- `es->reg[RI_SP] += n` and `-= n`.
unfoldable pub move_sp : EmuState → ℕ → Option EmuState
unfolding set_reg_val
move_sp es n = do c ← get_elem? es.regs ri_sp; set_reg_val es ri_sp ((c.val + n) % 2 ^ 64)

unfoldable pub capture_unknown : RContext → Instr → EmuValue → Option RContext
unfolding capture ms_is_static
capture_unknown r i v = if ms_is_static v.state then some r else capture r i

-- POP of `n` bytes.
unfoldable pub pop_bytes : RContext → Instr → ValType → ℕ → Option RContext
unfolding stack_pointer get_mem_value set_result move_sp capture_unknown
pop_bytes r i t n = do
  addr ← stack_pointer r.world.es
  v ← get_mem_value r.world addr t true
  r1 ← set_result r v i.dst
  es ← move_sp r1.world.es n
  capture_unknown (with_es r1 es) i v

unfoldable pub process_pop : RContext → Instr → Option RContext
unfolding pop_bytes set_emulator_error
process_pop r i = elim (i.dst.type) [
  | ot_reg16 ↦ pop_bytes r i vt_16 2
  | ot_reg64 ↦ pop_bytes r i vt_64 8
  | _ ↦ some (set_emulator_error r et_unsupported_operands)
]

-- PUSH of `n` bytes; the stack pointer is moved before the operand is read.
unfoldable pub push_bytes :
    RContext → Instr → ValType → ℕ → (EmuValue → Option EmuValue) → Option RContext
unfolding stack_pointer move_sp get_op_value set_mem_value set_mem_state capture_unknown
push_bytes r i t n extend = do
  es ← move_sp r.world.es (2 ^ 64 - n)
  addr ← stack_pointer es
  let w = record (r.world) { es = es }
  v ← get_op_value w i.dst
  v1 ← extend v
  w1 ← set_mem_value w v1 addr t true
  es1 ← set_mem_state w1.es addr t v1.state true
  capture_unknown (record r { world = record w1 { es = es1 } }) i v1

-- Immediates of 8 and 32 bits are extended.
unfoldable pub extend_push : EmuValue → Option EmuValue
extend_push v = elim (v.type) [
  | vt_8 ↦ some (record v { val = sign_extend8 (v.val % 2 ^ 8); type = vt_64 })
  | vt_32 ↦ some (record v { val = sign_extend32 (v.val % 2 ^ 32); type = vt_64 })
  | vt_64 ↦ some v
  | _ ↦ none
]

unfoldable pub process_push : RContext → Instr → Option RContext
unfolding push_bytes extend_push set_emulator_error
process_push r i = elim (i.dst.type) [
  | ot_ind16 ↦ push_bytes r i vt_16 2 some
  | ot_reg16 ↦ push_bytes r i vt_16 2 some
  | ot_imm16 ↦ push_bytes r i vt_16 2 some
  | ot_ind64 ↦ push_bytes r i vt_64 8 extend_push
  | ot_reg64 ↦ push_bytes r i vt_64 8 extend_push
  | ot_imm64 ↦ push_bytes r i vt_64 8 extend_push
  | ot_imm8 ↦ push_bytes r i vt_64 8 extend_push
  | ot_imm32 ↦ push_bytes r i vt_64 8 extend_push
  | _ ↦ some (set_emulator_error r et_unsupported_operands)
]

-- LEAVE as the two instructions that it stands for.
unfoldable pub process_leave : RContext → Option RContext
unfolding get_reg get_reg_op init_binary_instr init_unary_instr process_mov process_pop
process_leave r = do
  bp ← get_reg rt_gp64 ri_bp
  sp ← get_reg rt_gp64 ri_sp
  src ← get_reg_op r.junk.src bp
  dst ← get_reg_op r.junk.dst sp
  mov ← init_binary_instr r.junk it_mov vt_none dst src
  r1 ← process_mov r mov
  elim (r1.e) [
    | some e ↦ some r1
    | none ↦ do pop ← init_unary_instr r.junk it_pop src; process_pop r1 pop
  ]

-- A hint is captured if it is configured.
unfoldable pub capture_hint : RContext → InstrType → Option RContext
unfolding init_simple_instr capture
capture_hint r it = if r.add_inlining_hints then capture r (init_simple_instr r.junk it) else some r

-- The return address is pushed and remembered.
unfoldable pub process_call : RContext → Instr → Option RContext
unfolding get_op_value ms_is_static get_imm_op init_unary_instr process_push capture_hint
    set_emulator_error
process_call r i = do
  v ← get_op_value r.world i.dst
  if leb max_calldepth r.world.es.depth
      then some (set_emulator_error r et_buffer_overflow)
      else if not (ms_is_static v.state)
      then some (set_emulator_error r et_unsupported_operands)
      else (do
        o ← get_imm_op r.junk.dst vt_64 (next_addr i)
        push ← init_unary_instr r.junk it_push o
        r1 ← process_push r push
        elim (r1.e) [
          | some e ↦ some r1
          | none ↦ do
            let es = r1.world.es
            assert (ltb es.depth (length es.ret_stack))
            r2 ←
                capture_hint
                  (with_es r1 (record es {
                    ret_stack = set es.ret_stack es.depth o.val;
                    depth = es.depth + 1;
                  }))
                  it_hint_call
            some (record r2 { exit = v.val })
        ])

-- The caller-save registers without A: rdi, rsi, rdx, rcx and r8 to r11.
abbrev pub dead_after_ret : List ℕ
dead_after_ret = 7 ∷ 6 ∷ 2 ∷ 1 ∷ 8 ∷ 9 ∷ 10 ∷ 11 ∷ []

unfoldable pub kill_regs : List ℕ → EmuState → Option EmuState
unfolding set_reg_state
kill_regs [] es = some es
kill_regs (ri ∷ rest) es = do
  es1 ← set_reg_state es ri (init_meta_state cs_dead)
  kill_regs rest es1

-- The return to the caller in an inlined function; at depth 0 the function that is rewritten
-- returns.
unfoldable pub emulate_ret : RContext → Option RContext
unfolding kill_regs capture_hint stack_pointer get_mem_value move_sp set_emulator_error
emulate_ret r = do
  es ← kill_regs dead_after_ret r.world.es
  r1 ← capture_hint (with_es r es) it_hint_ret
  elim (r1.world.es.depth) [
    | zero ↦ some (record r1 { returned = true })
    | suc d ↦ do
      let r2 = with_es r1 (record (r1.world.es) { depth = d })
      addr ← stack_pointer r2.world.es
      v ← get_mem_value r2.world addr vt_64 true
      es1 ← move_sp r2.world.es 8
      back ← get_elem? es1.ret_stack d
      let r3 = with_es r2 es1
      if v.val != back
          then some (set_emulator_error r3 et_bad_operands)
          else some (record r3 { exit = back })
  ]
