-- ===== src/Process/Dispatch.antt =====
-- src/emulate.c: `processInstr` and `processKnownTargets`.
use dbrew.Prelude.{ℕ, Bool, not, Option, some, ltb, ◌==◌, if◌then◌else◌, ◌>>=◌, get_elem?}
use dbrew.Emulate.Meta.{cs_dynamic, cs_static2, init_meta_state, ms_is_static}
use dbrew.Emulate.Operand.{set_reg_state}
use dbrew.Instr.Kinds.{rt_gp64, vt_64}
use dbrew.Instr.Mnemonics.{InstrType, it_nop, it_cltq, it_cwtl, it_cqto, it_push, it_pop}
use dbrew.Instr.Mnemonics.{it_leave, it_mov, it_movsx, it_lea, it_neg, it_inc, it_dec, it_add}
use dbrew.Instr.Mnemonics.{it_sub, it_imul, it_idiv1, it_xor, it_and, it_or, it_cmp, it_test}
use dbrew.Instr.Mnemonics.{it_shl, it_shr, it_sar, it_call, it_ret, it_jmp, it_jmpi, it_jo}
use dbrew.Instr.Mnemonics.{it_jno, it_jc, it_jnc, it_jz, it_jnz, it_jbe, it_ja, it_js, it_jns}
use dbrew.Instr.Mnemonics.{it_jp, it_jnp, it_jl, it_jge, it_jle, it_jg, it_cmovo, it_cmovno}
use dbrew.Instr.Mnemonics.{it_cmovc, it_cmovnc, it_cmovz, it_cmovnz, it_cmovs, it_cmovns}
use dbrew.Instr.Mnemonics.{it_addss, it_addsd, it_addps, it_addpd}
use dbrew.Instr.Types.{Instr}
use dbrew.Instr.Build.{init_binary_instr}
use dbrew.Instr.Operands.{get_reg_op, get_imm_op}
use dbrew.Instr.Registers.{get_reg}
use dbrew.Capture.Blocks.{capture}
use dbrew.Capture.Types.{et_unsupported_instr, RContext}
use dbrew.Capture.Vector.{capture_vec, capture_pass_through}
use dbrew.Process.Moves.{process_mov, process_cltq, process_cwtl, process_cqto, process_cmov}
use dbrew.Process.Moves.{process_lea}
use dbrew.Process.Jumps.{process_jcc, process_jmp, process_jmpi}
use dbrew.Process.Stack.{process_pop, process_push, process_leave, process_call, emulate_ret}
use dbrew.Process.Step.{set_emulator_error, with_es}
use dbrew.Process.Arith.{process_add, process_sub, process_cmp, process_test, process_bitwise}
use dbrew.Process.Arith.{process_dec, process_inc, process_neg, process_imul, process_idiv1}
use dbrew.Process.Arith.{process_shift}

-- The cases of `processInstr`, by the type of the instruction.
unfoldable pub process_by_type : RContext → Instr → InstrType → Option RContext
unfolding process_add process_call process_cltq process_cwtl process_cqto process_cmov process_cmp
    process_dec process_imul process_idiv1 process_inc process_jcc process_jmp process_jmpi
    process_lea process_leave process_mov process_neg process_pop process_push emulate_ret
    process_shift process_sub process_test process_bitwise capture_vec set_emulator_error
process_by_type r i it = elim it [
  | it_add ↦ process_add r i
  | it_call ↦ process_call r i
  | it_cltq ↦ process_cltq r i
  | it_cwtl ↦ process_cwtl r i
  | it_cqto ↦ process_cqto r i
  | it_cmovz ↦ process_cmov r i
  | it_cmovnz ↦ process_cmov r i
  | it_cmovc ↦ process_cmov r i
  | it_cmovnc ↦ process_cmov r i
  | it_cmovo ↦ process_cmov r i
  | it_cmovno ↦ process_cmov r i
  | it_cmovs ↦ process_cmov r i
  | it_cmovns ↦ process_cmov r i
  | it_cmp ↦ process_cmp r i
  | it_dec ↦ process_dec r i
  | it_imul ↦ process_imul r i
  | it_idiv1 ↦ process_idiv1 r i
  | it_inc ↦ process_inc r i
  | it_jo ↦ process_jcc r i
  | it_jno ↦ process_jcc r i
  | it_jc ↦ process_jcc r i
  | it_jnc ↦ process_jcc r i
  | it_jz ↦ process_jcc r i
  | it_jnz ↦ process_jcc r i
  | it_jbe ↦ process_jcc r i
  | it_ja ↦ process_jcc r i
  | it_js ↦ process_jcc r i
  | it_jns ↦ process_jcc r i
  | it_jp ↦ process_jcc r i
  | it_jnp ↦ process_jcc r i
  | it_jle ↦ process_jcc r i
  | it_jg ↦ process_jcc r i
  | it_jl ↦ process_jcc r i
  | it_jge ↦ process_jcc r i
  | it_jmp ↦ some (process_jmp r i)
  | it_jmpi ↦ process_jmpi r i
  | it_lea ↦ process_lea r i
  | it_leave ↦ process_leave r
  | it_mov ↦ process_mov r i
  | it_movsx ↦ process_mov r i
  | it_nop ↦ some r
  | it_neg ↦ process_neg r i
  | it_pop ↦ process_pop r i
  | it_push ↦ process_push r i
  | it_ret ↦ emulate_ret r
  | it_shl ↦ process_shift r i
  | it_shr ↦ process_shift r i
  | it_sar ↦ process_shift r i
  | it_sub ↦ process_sub r i
  | it_test ↦ process_test r i
  | it_xor ↦ process_bitwise r i
  | it_or ↦ process_bitwise r i
  | it_and ↦ process_bitwise r i
  | it_addss ↦ capture_vec r i
  | it_addsd ↦ capture_vec r i
  | it_addps ↦ capture_vec r i
  | it_addpd ↦ capture_vec r i
  | _ ↦ some (set_emulator_error r et_unsupported_instr)
]

unfoldable pub process_instr : RContext → Instr → Option RContext
unfolding capture_pass_through process_by_type
process_instr r i = if ltb 0 i.pt_len then capture_pass_through r i else process_by_type r i i.type

-- The addresses of the functions that the emulator treats specially, and `handleVectorCall` of
-- src/vector.c, of which only the result is used here.
pub record KnownTargets : Type 0 where
  pub make_dynamic : ℕ
  pub make_static : ℕ
  pub is_vector_call : ℕ → Bool
  pub handle_vector_call : RContext → ℕ → ℕ × RContext

-- RI_DI.
abbrev pub ri_di : ℕ
ri_di = 7

-- `makeDynamic` on a known argument moves it to its register.
unfoldable pub forget_argument : RContext → Option RContext
unfolding get_reg get_reg_op get_imm_op init_binary_instr capture set_reg_state ms_is_static
forget_argument r = do
  c ← get_elem? r.world.es.regs ri_di
  if not (ms_is_static c.state) then some r else (do
    di ← get_reg rt_gp64 ri_di
    dst ← get_reg_op r.junk.dst di
    src ← get_imm_op r.junk.src vt_64 c.val
    mov ← init_binary_instr r.junk it_mov vt_64 dst src
    r1 ← capture r mov
    es ← set_reg_state r1.world.es ri_di (init_meta_state cs_dynamic)
    some (with_es r1 es))

unfoldable pub process_known_targets : KnownTargets → RContext → ℕ → Option (ℕ × RContext)
unfolding forget_argument set_reg_state
process_known_targets known r f = do
  r1 ← (if f == known.make_dynamic then forget_argument r else some r)
  r2 ←
      (if f == known.make_static
        then (do
          es ← set_reg_state r1.world.es ri_di (init_meta_state cs_static2)
          some (with_es r1 es))
        else some r1)
  some (if known.is_vector_call f then known.handle_vector_call r2 f else (f, r2))
