-- ===== src/Capture/Tests.antt =====
-- Tests of src/emulate.c on captured blocks: a context with room for three blocks and two
-- instructions.
use dbrew.Prelude.{ℕ, zero, suc, ◌≡◌, refl, inl, true, false, none, some, [], ◌∷◌, arith}
use dbrew.Prelude.{get_elem?}
use dbrew.Emulate.Saved.{find_saved, save_emu_state}
use dbrew.Capture.Refinement.{too_many, IsAppended, capture_all_lem, capture_all_overflow}
use dbrew.Emulate.Meta.{cs_dynamic, cs_static, init_meta_state, ms_is_static, EmuValue}
use dbrew.Emulate.Meta.{static_emu_value}
use dbrew.Emulate.Operand.{get_op_value, op_state_is_tracked}
use dbrew.Emulate.State.{dead_cell, EmuState, copy_ret, copy_emu_state, alloc_emu_state}
use dbrew.Emulate.State.{clone_emu_state}
use dbrew.Config.Ranges.{cc_new}
use dbrew.Instr.Kinds.{rt_none, rt_gp64, vt_none, vt_64, ot_none, ot_imm64, ot_reg64, oso_none}
use dbrew.Instr.Kinds.{of_0, of_2, vex_no, oe_none, sc_none}
use dbrew.Instr.Copy.{copy_operands, copy_passthrough, copy_instr}
use dbrew.Instr.Mnemonics.{it_nop, it_add, it_jnz}
use dbrew.Instr.Types.{Operand, Instr}
use dbrew.Instr.Registers.{reg_val_type}
use dbrew.Capture.Neutral.{binary_result, capture_binary_op-neutral}
use dbrew.Capture.InstrLaws.{copy_all, IsWithin, empty, IsOpen}
use dbrew.Capture.Branch.{capture_jcc}
use dbrew.Capture.BlockLaws.{IsKeyed, get_capture_bb-IsKeyed, IsBlockOf, get_capture_bb_lem}
use dbrew.Capture.Captured.{is_neutral, capture_binary_op}
use dbrew.Capture.Blocks.{new_bb, get_capture_bb, capture_all}
use dbrew.Capture.Types.{Cbb, RContext}
use dbrew.Capture.Segments.{take}
use dbrew.Capture.Queue.{IsQueued, capture_jcc_lem}
use dbrew.Process.Step.{with_es}

abbrev no_operand : Operand
no_operand = record {
  val = 0;
  type = ot_none;
  reg = record { rt = rt_none; ri = 0 };
  ireg = record { rt = rt_none; ri = 0 };
  scale = 0;
  seg = oso_none;
}

abbrev nop : Instr
nop = record {
  type = it_nop;
  form = of_0;
  vtype = vt_none;
  dst = no_operand;
  src = no_operand;
  src2 = no_operand;
  addr = 0;
  len = 1;
  pt_len = 0;
  pt_vex_p = vex_no;
  pt_pset = 0;
  pt_opc = 0 ∷ 0 ∷ 0 ∷ 0 ∷ [];
  pt_enc = oe_none;
  pt_schange = sc_none;
  info_mem_addr = none;
}

abbrev state0 : EmuState
state0 = record {
  parent = some 4096;
  regs = [];
  reg_ip = 0;
  reg_ip_state = init_meta_state cs_static;
  flags = record {
    carry = dead_cell;
    zero_ = dead_cell;
    sign = dead_cell;
    overflow = dead_cell;
    parity = dead_cell;
  };
  stack = [];
  stack_start = 100;
  stack_accessed = 100;
  stack_top = 100;
  ret_stack = [];
  depth = 0;
}

abbrev block0 : Cbb
block0 = new_bb 4096 (some 0) none

-- The first block is being captured.
abbrev context : RContext
context = record {
  cap_instr = [];
  cap_instr_capacity = 2;
  cap_bb = block0 ∷ [];
  cap_bb_capacity = 3;
  current_cap_bb = some 0;
  cap_stack = 0 ∷ [];
  world = record { es = state0; mem = λ a. 0; fs_mem = λ a. 0 };
  es_self = 4096;
  saved_state = [];
  cc = some cc_new;
  add_inlining_hints = false;
  junk = nop;
  junk_es = state0;
  junk_cell = dead_cell;
  e = none;
  exit = 0;
  returned = false;
}

context-IsKeyed : IsKeyed context
context-IsKeyed = record {
  bounded = omega arith;
  unique = λ i j a b ei ej d s. only_one i j a b ei ej;
}
  where
    only_one :
        (i j : ℕ) (a b : Cbb)
        → get_elem? (block0 ∷ []) i ≡ some a
        → get_elem? (block0 ∷ []) j ≡ some b
        → i ≡ j
    only_one zero zero a b ei ej = refl
    only_one zero (suc j) a b ei ej = absurd (ground arith)
    only_one (suc i) j a b ei ej = absurd (ground arith)

get_capture_bb-IsKeyed_example : IsKeyed (get_capture_bb context 5000 (some 0)).1
get_capture_bb-IsKeyed_example = get_capture_bb-IsKeyed context 5000 (some 0) context-IsKeyed

get_capture_bb_lem_example :
    (i : ℕ) × (get_capture_bb context 5000 (some 0)
      ≡ (some i, (get_capture_bb context 5000 (some 0)).1))
    × IsBlockOf context (get_capture_bb context 5000 (some 0)).1 5000 (some 0) i
get_capture_bb_lem_example = get_capture_bb_lem context 5000 (some 0) (inl (omega arith))

-- Room for one instruction only.
abbrev full_context : RContext
full_context = record context { cap_instr_capacity = 1 }

all_empty : (k : ℕ) (b : Cbb) → get_elem? (block0 ∷ []) k ≡ some b → IsWithin 0 b
unfolding new_bb
all_empty zero b e = let z : block0 ≡ b = ground arith in rw (← z) (empty refl refl)
all_empty (suc k) b e = absurd (ground arith)

context-IsOpen : IsOpen context 0
unfolding new_bb
context-IsOpen = record {
  ok = refl;
  current = refl;
  bb = block0;
  there = refl;
  last = empty refl refl;
  within = all_empty;
}

full_context-IsOpen : IsOpen full_context 0
unfolding new_bb
full_context-IsOpen = record {
  ok = refl;
  current = refl;
  bb = block0;
  there = refl;
  last = empty refl refl;
  within = all_empty;
}

capture_all_lem_example :
    (r' : RContext) × (capture_all context (nop ∷ nop ∷ []) ≡ some r')
    × IsAppended context r' 0 (nop ∷ nop ∷ [])
unfolding copy_all copy_instr copy_operands copy_passthrough
capture_all_lem_example =
    capture_all_lem context 0 (nop ∷ nop ∷ []) (nop ∷ nop ∷ []) context-IsOpen (omega arith) refl

capture_all_overflow_example :
    (r' : RContext) × (capture_all full_context (nop ∷ nop ∷ [])
      ≡ some (record r' { e = some too_many }))
    × IsAppended full_context r' 0 (take 1 (nop ∷ nop ∷ []))
unfolding copy_all copy_instr copy_operands copy_passthrough
capture_all_overflow_example =
    capture_all_overflow full_context 0 (nop ∷ nop ∷ []) (nop ∷ nop ∷ []) full_context-IsOpen
      (omega arith) (omega arith) refl

capture_jcc_lem_example :
    (r' : RContext) × (capture_jcc context it_jnz 4096 5000 ≡ some r')
    × IsQueued r' 0 it_jnz 4096 5000 (some 0) []
unfolding cc_new save_emu_state find_saved clone_emu_state copy_emu_state alloc_emu_state copy_ret
capture_jcc_lem_example =
    capture_jcc_lem context it_jnz 4096 5000 cc_new 0 block0 [] 0 (state0 ∷ []) refl refl refl refl
      refl refl refl (omega arith) (omega arith)

-- `ADD $0` to a register that is not known.
abbrev add_zero : Instr
add_zero = record nop {
  type = it_add;
  form = of_2;
  vtype = vt_64;
  dst = record no_operand { type = ot_reg64; reg = record { rt = rt_gp64; ri = 0 } };
  src = record no_operand { type = ot_imm64 };
}

abbrev rax_context : RContext
rax_context =
    with_es context
      (record state0 { regs = record { val = 9; state = init_meta_state cs_dynamic } ∷ [] })

abbrev rax_value : EmuValue
rax_value = record { val = 9; type = vt_64; state = init_meta_state cs_dynamic }

capture_binary_op-neutral_example :
    (capture_binary_op rax_context add_zero rax_value ≡ some (rax_context, rax_value))
    × (binary_result it_add 77 0 ≡ some 77)
unfolding get_op_value op_state_is_tracked static_emu_value ms_is_static is_neutral reg_val_type
capture_binary_op-neutral_example =
    capture_binary_op-neutral rax_context add_zero rax_value rax_value (static_emu_value 0 vt_64)
      true 77 refl refl refl refl refl refl refl refl (omega arith)
