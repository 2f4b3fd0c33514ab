-- ===== src/Emulate/State.antt =====
-- include/priv/common.h and src/emulate.c: the emulator state.
--
-- C keeps the values and the capture states of the registers, flags and stack bytes in parallel
-- arrays; here each place is one cell.
use dbrew.Prelude.{ℕ, zero, suc, ◌+◌, ◌-◌, Bool, true, false, not, ◌&&◌, Option, none, some}
use dbrew.Prelude.{List, [], ◌∷◌, ◌++◌, ltb, leb, ◌==◌, if◌then◌else◌, ◌>>=◌, ◌>>◌, assert}
use dbrew.Prelude.{length, drop, replicate, ◌is◌}
use dbrew.Emulate.Meta.{CaptureState, cs_dead, cs_dynamic, cs_static, cs_stackrelative}
use dbrew.Emulate.Meta.{cs_static2, cs_enum, MetaState, init_meta_state, ms_is_static}

-- A value with its capture state; a flag is 0 or 1, a stack byte is below 256.
pub record Cell : Type 0 where
  pub val : ℕ
  pub state : MetaState

abbrev pub dead_cell : Cell
dead_cell = record { val = 0; state = init_meta_state cs_dead }

-- The flags in the order of `FlagType`.
pub record Flags : Type 0 where
  pub carry : Cell
  pub zero_ : Cell
  pub sign : Cell
  pub overflow : Cell
  pub parity : Cell

-- `EmuState`. `parent` is the address of the parent state, or none for null; the stack has
-- `stackSize` cells. `depth` is not negative while states are saved and restored.
pub record EmuState : Type 0 where
  pub parent : Option ℕ
  pub regs : List Cell
  pub reg_ip : ℕ
  pub reg_ip_state : MetaState
  pub flags : Flags
  pub stack : List Cell
  pub stack_start : ℕ
  pub stack_accessed : ℕ
  pub stack_top : ℕ
  pub ret_stack : List ℕ
  pub depth : ℕ

abbrev pub dynamic_cell : Cell
dynamic_cell = record { val = 0; state = init_meta_state cs_dynamic }

-- The registers behind `resetEmuState`: rbx, rbp and r12 to r15 are preserved by the callee.
abbrev pub reset_regs : List Cell
reset_regs =
    dead_cell ∷ dead_cell ∷ dead_cell ∷ dynamic_cell ∷ dead_cell ∷ dynamic_cell ∷ dead_cell
    ∷ dead_cell ∷ dead_cell ∷ dead_cell ∷ dead_cell ∷ dead_cell ∷ dynamic_cell ∷ dynamic_cell
    ∷ dynamic_cell ∷ dynamic_cell ∷ []

-- `base` is the address of `es->stack`.
unfoldable pub reset_emu_state : ℕ → EmuState → EmuState
reset_emu_state base es =
    let size = length es.stack in
    record es {
      parent = none;
      regs = reset_regs;
      reg_ip_state = init_meta_state cs_static;
      flags = record {
        carry = dead_cell;
        zero_ = dead_cell;
        sign = dead_cell;
        overflow = dead_cell;
        parity = dead_cell;
      };
      stack = replicate size dead_cell;
      stack_start = base;
      stack_top = base + size;
      stack_accessed = base + size;
      depth = 0;
    }

abbrev pub option_eq : Option ℕ → Option ℕ → Bool
option_eq none none = true
option_eq (some a) (some b) = a == b
option_eq _ _ = false

-- CS_STATIC2 is equivalent to CS_STATIC.
unfoldable pub normalize : CaptureState → CaptureState
normalize s = if s is cs_static2 then cs_static else s

-- `csIsEqual`, of two cells in states with the given parents.
unfoldable pub cs_is_equal : Option ℕ → Cell → Option ℕ → Cell → Bool
unfolding normalize
cs_is_equal p1 c1 p2 c2 =
    let s1 = normalize c1.state.c_state in
    let s2 = normalize c2.state.c_state in
    if not (s1 is s2)
    then false
    else if s1 is cs_static
    then c1.val == c2.val
    else if s1 is cs_stackrelative
    then (if not (option_eq p1 p2) then false else c1.val == c2.val)
    else true

-- A loop of `csIsEqual` over two arrays of one length.
unfoldable pub cells_equal : Option ℕ → List Cell → Option ℕ → List Cell → Bool
cells_equal p1 [] p2 [] = true
cells_equal p1 (c1 ∷ cs1) p2 (c2 ∷ cs2) = cs_is_equal p1 c1 p2 c2 && cells_equal p1 cs1 p2 cs2
cells_equal p1 _ p2 _ = false

unfoldable pub flag_list : Flags → List Cell
flag_list f = f.carry ∷ f.zero_ ∷ f.sign ∷ f.overflow ∷ f.parity ∷ []

-- The first `n` cells, if there are as many, are not static.
unfoldable pub none_static : ℕ → List Cell → Bool
none_static zero cs = true
none_static (suc n) [] = true
none_static (suc n) (c ∷ cs) = not (ms_is_static c.state) && none_static n cs

-- The larger stack has more bytes at its bottom; those must not be static.
unfoldable pub stacks_equal : Option ℕ → List Cell → Option ℕ → List Cell → Bool
stacks_equal p1 st1 p2 st2 =
    if ltb (length st1) (length st2)
    then (let diff = length st2 - length st1 in
        none_static diff st2 && cells_equal p1 st1 p2 (drop diff st2))
    else (let diff = length st1 - length st2 in
        none_static diff st1 && cells_equal p1 (drop diff st1) p2 st2)

unfoldable pub es_is_equal : EmuState → EmuState → Bool
unfolding stacks_equal flag_list
es_is_equal es1 es2 =
    cells_equal es1.parent es1.regs es2.parent es2.regs
    && (cells_equal es1.parent (flag_list es1.flags) es2.parent (flag_list es2.flags)
        && (es1.depth == es2.depth && stacks_equal es1.parent es1.stack es2.parent es2.stack))

-- The first `n` return addresses are copied.
unfoldable pub copy_ret : ℕ → List ℕ → List ℕ → List ℕ
copy_ret zero dst src = dst
copy_ret (suc n) (d ∷ dst) (s ∷ src) = s ∷ copy_ret n dst src
copy_ret (suc n) dst src = dst

-- `copyEmuState`. A stack that is larger than the source's is filled with DEAD bytes at its bottom;
-- for a smaller one the rest of the source must not have been accessed. The subtractions are of
-- addresses: `stackStart` lies that far above 0.
unfoldable pub copy_emu_state : EmuState → EmuState → Option EmuState
unfolding copy_ret
copy_emu_state dst src = do
  let dst' = record dst {
    parent = src.parent;
    regs = src.regs;
    flags = src.flags;
    stack_top = src.stack_top;
    stack_accessed = src.stack_accessed;
    depth = src.depth;
    ret_stack = copy_ret src.depth dst.ret_stack src.ret_stack;
  }
  let ns = length src.stack
  let nd = length dst.stack
  if ltb ns nd
      then (do
        let diff = nd - ns
        assert (src.stack_top == src.stack_start - diff + nd)
        some (record dst' {
          stack_start = src.stack_start - diff;
          stack = replicate diff dead_cell ++ src.stack;
        }))
      else (do
        let diff = ns - nd
        assert (leb diff (src.stack_accessed - src.stack_start))
        assert (src.stack_top == src.stack_start + diff + nd)
        some (record dst' { stack_start = src.stack_start + diff; stack = drop diff src.stack }))

-- `allocEmuState`: `junk` and `byte` are what the allocated memory holds.
unfoldable pub alloc_emu_state : EmuState → Cell → ℕ → EmuState
alloc_emu_state junk byte size = record junk { stack = replicate size byte }

-- `self` is the address of `src`.
unfoldable pub clone_emu_state : EmuState → Cell → ℕ → EmuState → Option EmuState
unfolding copy_emu_state alloc_emu_state
clone_emu_state junk byte self src = do
  dst ← copy_emu_state (alloc_emu_state junk byte (src.stack_top - src.stack_accessed)) src
  some (record dst { parent = some self })
