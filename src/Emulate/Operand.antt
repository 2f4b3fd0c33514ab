-- ===== src/Emulate/Operand.antt =====
-- src/emulate.c: reading and writing registers, memory and operands.
use dbrew.Prelude.{ℕ, ◌+◌, ◌*◌, ◌%◌, ◌^◌, Bool, true, false, not, ◌&&◌, ◌||◌, Option, none}
use dbrew.Prelude.{some, ltb, ◌==◌, if◌then◌else◌, ◌>>=◌, ◌>>◌, assert, get_elem?, set, ◌is◌}
use dbrew.Memory.{Memory, load, store}
use dbrew.Emulate.Meta.{cs_dynamic, cs_static, cs_static2, cs_enum, MetaState, init_meta_state}
use dbrew.Emulate.Meta.{ms_is_static, EmuValue, static_emu_value, combine_state}
use dbrew.Emulate.Stack.{get_stack_offset, stack_value_bytes, get_stack_value, state_bytes}
use dbrew.Emulate.Stack.{set_stack_state, set_stack_value}
use dbrew.Emulate.State.{EmuState}
use dbrew.Instr.Kinds.{rt_none, rt_gp64, rt_ip, rt_enum, ValType, vt_8, vt_16, vt_32, vt_64}
use dbrew.Instr.Kinds.{vt_enum, ot_imm8, ot_imm16, ot_imm32, ot_imm64, ot_reg8, ot_reg16}
use dbrew.Instr.Kinds.{ot_reg32, ot_reg64, ot_ind8, ot_ind32, ot_ind64, OpSegOverride}
use dbrew.Instr.Kinds.{oso_none, oso_usefs, oso_enum}
use dbrew.Instr.Copy.{copy_operand}
use dbrew.Instr.Types.{Reg, Operand}
use dbrew.Instr.Operands.{op_val_type, op_is_imm, op_is_ind, op_is_gp_reg}
use dbrew.Instr.Registers.{reg_val_type, reg_is_gp}

-- What the emulator works on: its state, the memory of the process, and the memory that is
-- reached by the segment register fs.
pub record World : Type 0 where
  pub es : EmuState
  pub mem : Memory
  pub fs_mem : Memory

unfoldable pub get_reg_value : EmuState → Reg → ValType → Option EmuValue
get_reg_value es r t = do
  gp ← reg_is_gp r
  assert gp
  assert (reg_val_type r is t)
  c ← get_elem? es.regs r.ri
  some (record { val = c.val; type = t; state = c.state })

unfoldable pub get_mem_value : World → EmuValue → ValType → Bool → Option EmuValue
unfolding get_stack_offset get_stack_value state_bytes load
get_mem_value w addr t should_be_stack = elim (get_stack_offset w.es addr) [
  | some off ↦ get_stack_value w.es t off
  | none ↦ do
    assert (not should_be_stack)
    let s = if addr.state.c_state is cs_static2 then cs_static2 else cs_dynamic
    n ← state_bytes t
    some (record { val = load w.mem n addr.val; type = t; state = init_meta_state s })
]

-- The types and segments that `getSegMemValue` reads.
unfoldable pub get_seg_mem_value : World → EmuValue → ValType → OpSegOverride → Option EmuValue
unfolding state_bytes load
get_seg_mem_value w addr t s = do
  assert (s is oso_usefs)
  assert (t is vt_8 || t is vt_32 || t is vt_64)
  n ← state_bytes t
  some (record { val = load w.fs_mem n addr.val; type = t; state = init_meta_state cs_dynamic })

unfoldable pub set_mem_value : World → EmuValue → EmuValue → ValType → Bool → Option World
unfolding get_stack_offset set_stack_value stack_value_bytes store
set_mem_value w v addr t should_be_stack = do
  assert (v.type is t)
  elim (get_stack_offset w.es addr) [
    | some off ↦ do es ← set_stack_value w.es v off; some (record w { es = es })
    | none ↦ do
      assert (not should_be_stack)
      n ← stack_value_bytes t
      some (record w { mem = store w.mem n addr.val v.val })
  ]

unfoldable pub set_mem_state : EmuState → EmuValue → ValType → MetaState → Bool → Option EmuState
unfolding get_stack_offset set_stack_state
set_mem_state es addr t ms should_be_stack = elim (get_stack_offset es addr) [
  | some off ↦ set_stack_state es off t ms
  | none ↦ do assert (not should_be_stack); some es
]

unfoldable pub add_reg_to_value : EmuValue → EmuState → Reg → ℕ → Option EmuValue
add_reg_to_value v es r scale = elim (r.rt) [
  | rt_gp64 ↦ do
    c ← get_elem? es.regs r.ri
    some (record v {
      val = (v.val + scale * c.val) % 2 ^ 64;
      state = record (v.state) { c_state = combine_state v.state.c_state c.state.c_state false };
    })
  | rt_ip ↦ do assert (scale == 1); some (record v { val = (v.val + es.reg_ip) % 2 ^ 64 })
  | _ ↦ none
]

unfoldable pub get_op_addr : EmuState → Operand → Option EmuValue
unfolding add_reg_to_value op_is_ind
get_op_addr es o = do
  assert (op_is_ind o)
  assert (o.seg is oso_none)
  let v0 : EmuValue = record { val = o.val; type = vt_64; state = init_meta_state cs_static }
  v1 ← (if not (o.reg.rt is rt_none) then add_reg_to_value v0 es o.reg 1 else some v0)
  if ltb 0 o.scale then add_reg_to_value v1 es o.ireg o.scale else some v1

-- A register operand of a width; only its low bits are read.
unfoldable pub get_op_reg : EmuState → Operand → ValType → ℕ → Option EmuValue
get_op_reg es o t width = do
  assert (reg_val_type o.reg is t)
  c ← get_elem? es.regs o.reg.ri
  some (record { val = c.val % 2 ^ width; type = t; state = c.state })

-- A memory operand; what stood in the local operand of the C code before is not read.
unfoldable pub get_op_mem : World → Operand → ValType → Option EmuValue
unfolding get_op_addr copy_operand get_seg_mem_value get_mem_value
get_op_mem w o t =
    if not (o.seg is oso_none)
    then (do
      o' ← copy_operand o o
      addr ← get_op_addr w.es (record o' { seg = oso_none })
      get_seg_mem_value w addr t o.seg)
    else (do addr ← get_op_addr w.es o; get_mem_value w addr t false)

unfoldable pub get_op_value : World → Operand → Option EmuValue
unfolding get_op_reg get_op_mem
get_op_value w o = elim (o.type) [
  | ot_imm8 ↦ some (static_emu_value o.val vt_8)
  | ot_imm16 ↦ some (static_emu_value o.val vt_16)
  | ot_imm32 ↦ some (static_emu_value o.val vt_32)
  | ot_imm64 ↦ some (static_emu_value o.val vt_64)
  | ot_reg8 ↦ get_op_reg w.es o vt_8 8
  | ot_reg16 ↦ get_op_reg w.es o vt_16 16
  | ot_reg32 ↦ get_op_reg w.es o vt_32 32
  | ot_reg64 ↦ get_op_reg w.es o vt_64 64
  | ot_ind8 ↦ get_op_mem w o vt_8
  | ot_ind32 ↦ get_op_mem w o vt_32
  | ot_ind64 ↦ get_op_mem w o vt_64
  | _ ↦ none
]

-- `es->reg_state[ri] = ms` and `es->reg[ri] = v`; a write past the registers is undefined.
unfoldable pub set_reg_state : EmuState → ℕ → MetaState → Option EmuState
set_reg_state es ri ms = do
  c ← get_elem? es.regs ri
  some (record es { regs = set es.regs ri (record c { state = ms }) })

unfoldable pub set_reg_val : EmuState → ℕ → ℕ → Option EmuState
set_reg_val es ri v = do
  c ← get_elem? es.regs ri
  some (record es { regs = set es.regs ri (record c { val = v }) })

unfoldable pub set_op_state : MetaState → EmuState → Operand → Option EmuState
unfolding set_reg_state get_op_addr set_mem_state
set_op_state ms es o = elim (o.type) [
  | ot_reg8 ↦ set_reg_state es o.reg.ri ms
  | ot_reg16 ↦ set_reg_state es o.reg.ri ms
  | ot_reg32 ↦ set_reg_state es o.reg.ri ms
  | ot_reg64 ↦ set_reg_state es o.reg.ri ms
  | ot_ind32 ↦ do addr ← get_op_addr es o; set_mem_state es addr vt_32 ms false
  | ot_ind64 ↦ do addr ← get_op_addr es o; set_mem_state es addr vt_64 ms false
  | _ ↦ none
]

unfoldable pub set_op_reg : World → EmuValue → Operand → ValType → ℕ → Option World
unfolding set_reg_val
set_op_reg w v o t width = do
  assert (reg_val_type o.reg is t)
  es ← set_reg_val w.es o.reg.ri (v.val % 2 ^ width)
  some (record w { es = es })

unfoldable pub set_op_value : EmuValue → World → Operand → Option World
unfolding set_op_reg get_op_addr set_mem_value op_val_type
set_op_value v w o = do
  t ← op_val_type o
  assert (v.type is t)
  elim (o.type) [
    | ot_reg8 ↦ set_op_reg w v o vt_8 8
    | ot_reg16 ↦ set_op_reg w v o vt_16 16
    | ot_reg32 ↦ set_op_reg w v o vt_32 32
    | ot_reg64 ↦ set_op_reg w v o vt_64 64
    | ot_ind32 ↦ do addr ← get_op_addr w.es o; set_mem_value w v addr vt_32 false
    | ot_ind64 ↦ do addr ← get_op_addr w.es o; set_mem_value w v addr vt_64 false
    | _ ↦ none
  ]

unfoldable pub op_state_is_tracked : EmuState → Operand → Option Bool
unfolding op_is_imm op_is_gp_reg get_op_addr get_stack_offset
op_state_is_tracked es o = do
  assert (not (op_is_imm o))
  gp ← op_is_gp_reg o
  if gp then some true else (do
    addr ← get_op_addr es o
    elim (get_stack_offset es addr) [
      | none ↦ some false
      | some off ↦ some (ms_is_static off.state)
    ])

-- The three steps of `applyStaticToInd` on a memory operand.
unfoldable pub apply_base : EmuState → Operand → Option Operand
apply_base es o =
    if o.reg.rt is rt_gp64
    then (do
      c ← get_elem? es.regs o.reg.ri
      some (
          if ms_is_static c.state
          then record o { val = (o.val + c.val) % 2 ^ 64; reg = record (o.reg) { rt = rt_none } }
          else o))
    else some o

unfoldable pub apply_ip : EmuState → Operand → Operand
apply_ip es o =
    if o.reg.rt is rt_ip && ms_is_static es.reg_ip_state
    then record o { val = (o.val + es.reg_ip) % 2 ^ 64; reg = record (o.reg) { rt = rt_none } }
    else o

unfoldable pub apply_index : EmuState → Operand → Option Operand
apply_index es o =
    if ltb 0 o.scale
    then (do
      assert (o.ireg.rt is rt_gp64)
      c ← get_elem? es.regs o.ireg.ri
      some (
          if ms_is_static c.state
          then record o { val = (o.val + o.scale * c.val) % 2 ^ 64; scale = 0 }
          else o))
    else some o

unfoldable pub apply_static_to_ind : EmuState → Operand → Option Operand
unfolding apply_base apply_ip apply_index
apply_static_to_ind es o =
    if op_is_ind o then (do o1 ← apply_base es o; apply_index es (apply_ip es o1)) else some o
