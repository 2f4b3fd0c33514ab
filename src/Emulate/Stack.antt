-- ===== src/Emulate/Stack.antt =====
-- src/emulate.c: the helpers on the emulated stack.
use dbrew.Prelude.{ℕ, zero, suc, ◌+◌, ◌-◌, ◌*◌, ◌/◌, ◌%◌, ◌^◌, true, ◌&&◌, Option, none, some}
use dbrew.Prelude.{List, ltb, leb, if◌then◌else◌, ◌>>=◌, ◌>>◌, assert, length, get_elem?, set}
use dbrew.Prelude.{◌is◌}
use dbrew.Emulate.Meta.{CaptureState, cs_dead, cs_dynamic, cs_static, cs_stackrelative, cs_enum}
use dbrew.Emulate.Meta.{MetaState, init_meta_state, ms_is_static, EmuValue, combine_state}
use dbrew.Emulate.State.{Cell, EmuState}
use dbrew.Instr.Kinds.{ValType, vt_8, vt_16, vt_32, vt_64}

-- `getStackOffset`: the offset of an address on the stack, or none. It is static exactly if the
-- address is relative to the stack.
unfoldable pub get_stack_offset : EmuState → EmuValue → Option EmuValue
get_stack_offset es addr =
    if leb es.stack_start addr.val && ltb addr.val es.stack_top
    then (let s = if addr.state.c_state is cs_stackrelative then cs_static else cs_dynamic in
        some (record {
          type = vt_32;
          val = (addr.val - es.stack_start) % 2 ^ 64;
          state = init_meta_state s;
        }))
    else none

-- `getStackState`. The first test has no effect in C, as the second one or the read behind it
-- decides; a read past the end of the stack is undefined.
unfoldable pub get_stack_state : EmuState → EmuValue → Option CaptureState
get_stack_state es off =
    if off.state.c_state is cs_static
    then (if ltb off.val (es.stack_accessed - es.stack_start)
        then some cs_dead
        else (do c ← get_elem? es.stack off.val; some c.state.c_state))
    else some cs_dynamic

-- A little-endian read and write of `n` bytes; none past the end.
unfoldable pub read_cells : List Cell → ℕ → ℕ → Option ℕ
read_cells st off zero = some 0
read_cells st off (suc n) = do
  c ← get_elem? st off
  high ← read_cells st (off + 1) n
  some (c.val + high * 2 ^ 8)

unfoldable pub write_cells : List Cell → ℕ → ℕ → ℕ → Option (List Cell)
write_cells st off zero v = some st
write_cells st off (suc n) v = do
  c ← get_elem? st off
  write_cells (set st off (record c { val = v % 2 ^ 8 })) (off + 1) n (v / 2 ^ 8)

-- The loop of `getStackValue` over the states of `n` further bytes.
unfoldable pub combine_cells : List Cell → ℕ → ℕ → CaptureState → Option CaptureState
combine_cells st off zero s = some s
combine_cells st off (suc n) s = do
  c ← get_elem? st off
  combine_cells st (off + 1) n (combine_state s c.state.c_state true)

-- The bytes of a value that is read from the stack or written to it.
unfoldable pub stack_value_bytes : ValType → Option ℕ
stack_value_bytes vt_16 = some 2
stack_value_bytes vt_32 = some 4
stack_value_bytes vt_64 = some 8
stack_value_bytes _ = none

-- `getStackValue` for a value of type `t`.
unfoldable pub get_stack_value : EmuState → ValType → EmuValue → Option EmuValue
unfolding get_stack_state
get_stack_value es t off = do
  assert (ltb off.val (length es.stack))
  n ← stack_value_bytes t
  v ← read_cells es.stack off.val n
  s ←
      (if off.state.c_state is cs_static
        then (do s0 ← get_stack_state es off; combine_cells es.stack (off.val + 1) (n - 1) s0)
        else some cs_dynamic)
  some (record { val = v; type = t; state = init_meta_state s })

unfoldable pub state_bytes : ValType → Option ℕ
state_bytes vt_8 = some 1
state_bytes vt_16 = some 2
state_bytes vt_32 = some 4
state_bytes vt_64 = some 8
state_bytes _ = none

-- The loop of `setStackState`.
unfoldable pub set_states : List Cell → ℕ → ℕ → MetaState → Option (List Cell)
set_states st off zero ms = some st
set_states st off (suc n) ms = do
  c ← get_elem? st off
  set_states (set st off (record c { state = ms })) (off + 1) n ms

-- The part of the stack that has been accessed grows down to an offset.
unfoldable pub access : EmuState → ℕ → EmuState
access es off =
    if ltb (es.stack_start + off) es.stack_accessed
    then record es { stack_accessed = es.stack_start + off }
    else es

unfoldable pub set_stack_state : EmuState → EmuValue → ValType → MetaState → Option EmuState
unfolding access
set_stack_state es off vt ms = do
  assert (ms_is_static off.state)
  n ← state_bytes vt
  st ← set_states es.stack off.val n ms
  some (access (record es { stack = st }) off.val)

unfoldable pub set_stack_value : EmuState → EmuValue → EmuValue → Option EmuState
unfolding access
set_stack_value es v off = do
  n ← stack_value_bytes v.type
  st ← write_cells es.stack off.val n v.val
  some (access (record es { stack = st }) off.val)
