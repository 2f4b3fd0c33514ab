-- ===== src/Process/Step.antt =====
-- src/emulate.c: what the cases of `processInstr` share.
use dbrew.Prelude.{ℕ, ◌+◌, ◌-◌, ◌/◌, ◌%◌, ◌^◌, Option, none, some, ltb, if◌then◌else◌, ◌>>=◌}
use dbrew.Emulate.Meta.{EmuValue}
use dbrew.Emulate.Operand.{set_op_state, set_op_value}
use dbrew.Emulate.State.{EmuState}
use dbrew.Instr.Kinds.{ValType, vt_32, vt_64, OpType, ot_reg32, ot_reg64, ot_ind32, ot_ind64}
use dbrew.Instr.Types.{Operand, Instr}
use dbrew.Capture.Types.{em_emulator, ErrorType, set_error, RContext}

unfoldable pub set_emulator_error : RContext → ErrorType → RContext
set_emulator_error r et = record r { e = some (set_error et em_emulator) }

-- The context with another emulator state.
abbrev pub with_es : RContext → EmuState → RContext
with_es r es = record r { world = record (r.world) { es = es } }

-- `setOpValue` and `setOpState` at the end of most cases.
unfoldable pub set_result : RContext → EmuValue → Operand → Option RContext
unfolding set_op_value set_op_state
set_result r v o = do
  w ← set_op_value v r.world o
  es ← set_op_state v.state w.es o
  some (record r { world = record w { es = es } })

-- `(int64_t)(int16_t)` on the low bits of a value.
abbrev pub sign_extend16 : ℕ → ℕ
sign_extend16 w = if ltb w (2 ^ 15) then w else w + (2 ^ 64 - 2 ^ 16)

-- `>>` on a signed value of `w` bits.
unfoldable pub shift_right : ℕ → ℕ → ℕ → ℕ
shift_right w v k =
    let x = v % 2 ^ w in
    if ltb x (2 ^ (w - 1)) then x / 2 ^ k else 2 ^ w - 1 - (2 ^ w - 1 - x) / 2 ^ k

-- The address behind an instruction.
abbrev pub next_addr : Instr → ℕ
next_addr i = (i.addr + i.len) % 2 ^ 64

-- The width that ADD and SUB, and by its operand type DEC, INC, NEG and IMUL, work with.
unfoldable pub val_bits : ValType → Option ℕ
val_bits vt_32 = some 32
val_bits vt_64 = some 64
val_bits _ = none

unfoldable pub op_bits : OpType → Option ℕ
op_bits ot_reg32 = some 32
op_bits ot_ind32 = some 32
op_bits ot_reg64 = some 64
op_bits ot_ind64 = some 64
op_bits _ = none
