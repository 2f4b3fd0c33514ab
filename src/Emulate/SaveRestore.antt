-- ===== src/Emulate/SaveRestore.antt =====
-- Saving and restoring emulator states.
use dbrew.Prelude.{ℕ, ◌+◌, ◌-◌, ◌≤◌, ◌≡◌, true, some, ◌++◌, arith, length, drop, replicate}
use dbrew.Prelude.{length-drop, length-replicate}
use native.Mathlib.Decide.{ℕ_discrete}
use dbrew.Emulate.State.{Cell, dead_cell, EmuState, flag_list, none_static, stacks_equal}
use dbrew.Emulate.State.{es_is_equal, copy_ret, copy_emu_state, clone_emu_state}
use dbrew.Emulate.Equality.{cells_equal_refl}

-- The stack boundaries fit the stack, and what lies below the accessed part was never written.
pub record IsStackValid (es : EmuState) : Type 0 where
  pub top_eq : es.stack_top ≡ es.stack_start + length es.stack
  pub start_le : es.stack_start ≤ es.stack_accessed
  pub accessed_le : es.stack_accessed ≤ es.stack_top

-- The bytes below the accessed part of the stack.
abbrev pub untouched : EmuState → ℕ
untouched es = es.stack_accessed - es.stack_start

-- The saved copy keeps everything but the untouched part of the stack.
abbrev pub snapshot : EmuState → ℕ → EmuState → EmuState
snapshot junk self es = record junk {
  parent = some self;
  regs = es.regs;
  flags = es.flags;
  stack = drop (untouched es) es.stack;
  stack_start = es.stack_accessed;
  stack_accessed = es.stack_accessed;
  stack_top = es.stack_top;
  ret_stack = copy_ret es.depth junk.ret_stack es.ret_stack;
  depth = es.depth;
}

pub clone_emu_state_lem :
    (junk : EmuState) (byte : Cell) (self : ℕ) (es : EmuState)
    → IsStackValid es
    → clone_emu_state junk byte self es ≡ some (snapshot junk self es)
unfolding clone_emu_state
clone_emu_state_lem junk byte self es v =
    let size = es.stack_top - es.stack_accessed in
    let k : length es.stack - size ≡ untouched es = omega arith in
    ground (arith, k, length-replicate size byte)

-- What restoring a snapshot of `es` leaves in `dst`.
abbrev pub restored : EmuState → EmuState → ℕ → EmuState → EmuState
restored dst junk self es = record dst {
  parent = some self;
  regs = es.regs;
  flags = es.flags;
  stack = replicate (untouched es) dead_cell ++ drop (untouched es) es.stack;
  stack_start = es.stack_start;
  stack_accessed = es.stack_accessed;
  stack_top = es.stack_top;
  ret_stack = copy_ret es.depth dst.ret_stack (copy_ret es.depth junk.ret_stack es.ret_stack);
  depth = es.depth;
}

-- Saving a state whose stack boundaries fit, and restoring it into a state of the same stack size,
-- succeeds: no assertion fails, registers, flags, depth and the accessed stack come back, and the
-- bytes below it are DEAD.
pub copy-clone :
    (junk dst : EmuState) (byte : Cell) (self : ℕ) (es : EmuState)
    → IsStackValid es
    → length dst.stack ≡ length es.stack
    → (s : EmuState) × (clone_emu_state junk byte self es ≡ some s)
      × (copy_emu_state dst s ≡ some (restored dst junk self es))
unfolding copy_emu_state
copy-clone junk dst byte self es v e =
    let k : length (drop (untouched es) es.stack) ≡ length es.stack - untouched es =
      length-drop (untouched es) es.stack in
    (
      snapshot junk self es,
      clone_emu_state_lem junk byte self es v,
      elim (ℕ_discrete (untouched es) 0) [ yes z ↦ ground (arith, k) | no nz ↦ ground (arith, k) ],
    )

-- A state equals its own snapshot if its stack boundaries fit, its parent is the state itself and
-- the bytes below the accessed part of the stack are not static.
pub es_is_equal-clone :
    (junk : EmuState) (byte : Cell) (self : ℕ) (es : EmuState)
    → IsStackValid es
    → es.parent ≡ some self
    → none_static (untouched es) es.stack ≡ true
    → (s : EmuState) × (clone_emu_state junk byte self es ≡ some s) × (es_is_equal es s ≡ true)
unfolding es_is_equal stacks_equal
es_is_equal-clone junk byte self es v e h =
    let k : length (drop (untouched es) es.stack) ≡ length es.stack - untouched es =
      length-drop (untouched es) es.stack in
    let d : length es.stack - (length es.stack - untouched es) ≡ untouched es = omega arith in
    (
      snapshot junk self es,
      clone_emu_state_lem junk byte self es v,
      ground (
        arith,
        k,
        d,
        cells_equal_refl (some self) es.regs,
        cells_equal_refl (some self) (flag_list es.flags),
        cells_equal_refl (some self) (drop (untouched es) es.stack),
      ),
    )
