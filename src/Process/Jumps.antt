-- ===== src/Process/Jumps.antt =====
-- src/emulate.c, `processInstr`: jumps.
use dbrew.Prelude.{Bool, true, false, not, ◌&&◌, ◌||◌, Option, none, some, ◌==◌, ◌!=◌}
use dbrew.Prelude.{if◌then◌else◌, ◌>>=◌, ◌is◌}
use dbrew.Emulate.Meta.{ms_is_static, ms_is_dynamic, EmuValue}
use dbrew.Emulate.Operand.{get_op_addr, get_op_value}
use dbrew.Emulate.State.{Flags}
use dbrew.Instr.Kinds.{ot_imm64, ot_reg64, ot_ind64, ot_enum}
use dbrew.Instr.Mnemonics.{InstrType, it_jo, it_jno, it_jc, it_jnc, it_jz, it_jnz, it_jbe}
use dbrew.Instr.Mnemonics.{it_ja, it_js, it_jns, it_jp, it_jnp, it_jl, it_jge, it_jle, it_jg}
use dbrew.Instr.Types.{Operand, Instr}
use dbrew.Capture.Branch.{capture_jcc}
use dbrew.Capture.Types.{et_buffer_overflow, et_unsupported_operands, RContext}
use dbrew.Process.Step.{set_emulator_error, next_addr}

-- A case of a conditional jump: whether a flag that it reads is unknown, the type of the jump that
-- is captured then, and whether the emulation jumps.
unfoldable pub jcc_case : Flags → InstrType → Option (Bool × InstrType × Bool)
unfolding ms_is_dynamic
jcc_case f it_jo = some (ms_is_dynamic f.overflow.state, it_jo, f.overflow.val == 1)
jcc_case f it_jno = some (ms_is_dynamic f.overflow.state, it_jno, f.overflow.val == 0)
jcc_case f it_jc = some (ms_is_dynamic f.carry.state, it_jc, f.carry.val == 1)
jcc_case f it_jnc = some (ms_is_dynamic f.carry.state, it_jnc, f.carry.val == 0)
jcc_case f it_jz = some (ms_is_dynamic f.zero_.state, it_jz, f.zero_.val == 1)
jcc_case f it_jnz = some (ms_is_dynamic f.zero_.state, it_jnz, f.zero_.val == 0)
jcc_case f it_jbe = some (
  ms_is_dynamic f.carry.state || ms_is_dynamic f.zero_.state,
  it_jle,
  f.carry.val == 1 || f.zero_.val == 1,
)
jcc_case f it_ja = some (
  ms_is_dynamic f.carry.state || ms_is_dynamic f.zero_.state,
  it_jg,
  f.carry.val == 0 && f.zero_.val == 0,
)
jcc_case f it_js = some (ms_is_dynamic f.sign.state, it_js, f.sign.val == 1)
jcc_case f it_jns = some (ms_is_dynamic f.sign.state, it_jns, f.sign.val == 0)
jcc_case f it_jp = some (ms_is_dynamic f.parity.state, it_jp, f.parity.val == 1)
jcc_case f it_jnp = some (ms_is_dynamic f.parity.state, it_jnp, f.parity.val == 0)
jcc_case f it_jle = some (
  ms_is_dynamic f.zero_.state || ms_is_dynamic f.sign.state,
  it_jle,
  f.zero_.val == 1 || f.sign.val == 1,
)
jcc_case f it_jg = some (
  ms_is_dynamic f.zero_.state || ms_is_dynamic f.sign.state,
  it_jg,
  f.zero_.val == 0 && f.sign.val == 0,
)
jcc_case f it_jl = some (
  ms_is_dynamic f.sign.state || ms_is_dynamic f.overflow.state,
  it_jl,
  f.sign.val != f.overflow.val,
)
jcc_case f it_jge = some (
  ms_is_dynamic f.sign.state || ms_is_dynamic f.overflow.state,
  it_jge,
  f.sign.val == f.overflow.val,
)
jcc_case f _ = none

unfoldable pub process_jcc : RContext → Instr → Option RContext
unfolding jcc_case capture_jcc
process_jcc r i = do
  (dynamic, it, jumps) ← jcc_case r.world.es.flags i.type
  r1 ← (if dynamic then capture_jcc r it i.dst.val (next_addr i) else some r)
  some (record r1 { exit = if jumps then i.dst.val else next_addr i })

unfoldable pub process_jmp : RContext → Instr → RContext
unfolding set_emulator_error
process_jmp r i =
    if not (i.dst.type is ot_imm64)
    then set_emulator_error r et_unsupported_operands
    else record r { exit = i.dst.val }

-- Whether the target of an indirect jump is known: one in memory at a known address is taken to be
-- constant. None for other operands.
unfoldable pub jmpi_is_known : RContext → Operand → EmuValue → Option (Option Bool)
unfolding ms_is_static get_op_addr
jmpi_is_known r o v = elim (o.type) [
  | ot_reg64 ↦ some (some (ms_is_static v.state))
  | ot_ind64 ↦ do
    a ← get_op_addr r.world.es o
    some (some (ms_is_static a.state || ms_is_static v.state))
  | _ ↦ some none
]

unfoldable pub process_jmpi : RContext → Instr → Option RContext
unfolding get_op_value jmpi_is_known set_emulator_error
process_jmpi r i = do
  v ← get_op_value r.world i.dst
  known ← jmpi_is_known r i.dst v
  some (elim known [
    | none ↦ set_emulator_error r et_unsupported_operands
    | some false ↦ set_emulator_error r et_buffer_overflow
    | some true ↦ record r { exit = v.val }
  ])
