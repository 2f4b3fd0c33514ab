-- ===== src/Process/Tests.antt =====
-- Tests of src/emulate.c on instructions whose registers are known: rax is 5 and rcx is 2^64 - 3.
use dbrew.Prelude.{ℕ, ◌-◌, ◌^◌, ◌≡◌, refl, ◌≢◌, inl, inr, false, none, some, [], ◌∷◌, arith}
use dbrew.Prelude.{◌>>=◌, get_elem?, replicate}
use dbrew.Emulate.Meta.{cs_static, cs_stackrelative, init_meta_state, cs_is_static}
use dbrew.Emulate.Meta.{ms_is_static, ms_is_dynamic, combine_state}
use dbrew.Emulate.State.{Cell, EmuState}
use dbrew.Config.Ranges.{cc_new}
use dbrew.Instr.Kinds.{rt_none, rt_gp64, vt_64, ot_imm64, ot_reg64, oso_none, of_2, vex_no}
use dbrew.Instr.Kinds.{oe_none, sc_none}
use dbrew.Instr.Mnemonics.{InstrType, it_nop, it_push, it_pop, it_sub, it_cmp, it_jc, it_jz}
use dbrew.Instr.Types.{Operand, Instr}
use dbrew.Instr.Registers.{reg_val_type, reg_is_gp}
use dbrew.Capture.Types.{RContext}
use dbrew.Process.Dispatch.{process_instr}
use dbrew.Process.JumpLaws.{condition, IsKnownFlags, process_instr-condition}
use dbrew.Process.Fold.{IsKnownPair, compared, process_sub-known}
use dbrew.Process.Compare.{below, comparison_code, compares, process_instr-compares}
use dbrew.Process.Step.{with_es}
use dbrew.Process.Known.{put_reg}
use dbrew.Process.PushPop.{IsPushPop, process_pop-process_push}
use dbrew.Engine.Blocks.{jcc_code}

abbrev known : ℕ → Cell
known v = record { val = v; state = init_meta_state cs_static }

abbrev reg64 : ℕ → Operand
reg64 n = record {
  val = 0;
  type = ot_reg64;
  reg = record { rt = rt_gp64; ri = n };
  ireg = record { rt = rt_none; ri = 0 };
  scale = 0;
  seg = oso_none;
}

abbrev target : Operand
target = record (reg64 0) { type = ot_imm64; val = 9000 }

-- An instruction of 3 bytes at 4096.
abbrev instr_of : InstrType → Operand → Operand → Instr
instr_of it dst src = record {
  type = it;
  form = of_2;
  vtype = vt_64;
  dst = dst;
  src = src;
  src2 = src;
  addr = 4096;
  len = 3;
  pt_len = 0;
  pt_vex_p = vex_no;
  pt_pset = 0;
  pt_opc = 0 ∷ 0 ∷ 0 ∷ 0 ∷ [];
  pt_enc = oe_none;
  pt_schange = sc_none;
  info_mem_addr = none;
}

abbrev state : EmuState
state = record {
  parent = none;
  regs = known 5 ∷ known (2 ^ 64 - 3) ∷ [];
  reg_ip = 0;
  reg_ip_state = init_meta_state cs_static;
  flags = record {
    carry = known 0;
    zero_ = known 1;
    sign = known 0;
    overflow = known 0;
    parity = known 0;
  };
  stack = [];
  stack_start = 100;
  stack_accessed = 100;
  stack_top = 100;
  ret_stack = [];
  depth = 0;
}

abbrev context : RContext
context = record {
  cap_instr = [];
  cap_instr_capacity = 2;
  cap_bb = [];
  cap_bb_capacity = 3;
  current_cap_bb = none;
  cap_stack = [];
  world = record { es = state; mem = λ a. 0; fs_mem = λ a. 0 };
  es_self = 4096;
  saved_state = [];
  cc = some cc_new;
  add_inlining_hints = false;
  junk = instr_of it_nop target target;
  junk_es = state;
  junk_cell = known 0;
  e = none;
  exit = 0;
  returned = false;
}

known_pair :
    (it : InstrType)
    → IsKnownPair context (instr_of it (reg64 0) (reg64 1)) 64 (known 5) (known (2 ^ 64 - 3))
unfolding reg_val_type reg_is_gp cs_is_static cc_new
known_pair it = record {
  t = vt_64;
  plain = refl;
  dst = record {
    width = inr (inr (inr (refl, refl, refl)));
    type_ok = refl;
    gp = refl;
    there = refl;
  };
  src = record {
    width = inr (inr (inr (refl, refl, refl)));
    type_ok = refl;
    gp = refl;
    there = refl;
  };
  known1 = refl;
  known2 = refl;
  bits = inr refl;
  not_forced = (cc_new, refl, refl);
}

state-IsKnownFlags : IsKnownFlags state.flags
unfolding ms_is_dynamic
state-IsKnownFlags = record {
  carry_state = refl;
  zero_state = refl;
  sign_state = refl;
  overflow_state = refl;
  parity_state = refl;
  carry = omega arith;
  zero_ = omega arith;
  sign = omega arith;
  overflow = omega arith;
  parity = omega arith;
}

process_instr-condition_example :
    process_instr context (instr_of it_jz target target) ≡ some (record context { exit = 9000 })
unfolding condition jcc_code
process_instr-condition_example =
    process_instr-condition context (instr_of it_jz target target) 4 refl refl (inl (omega arith))
      state-IsKnownFlags

process_sub-known_example :
    process_instr context (instr_of it_sub (reg64 0) (reg64 1))
    ≡ some (
        with_es context (
          put_reg
            (compared context
              (instr_of it_sub (reg64 0) (reg64 1))
              64
              (known 5)
              (known (2 ^ 64 - 3))
              (known_pair it_sub))
            0
            (known 8)))
unfolding combine_state
process_sub-known_example =
    process_sub-known context (instr_of it_sub (reg64 0) (reg64 1)) 64 (known 5)
      (known (2 ^ 64 - 3)) (known_pair it_sub) refl

-- Without sign 5 is below 2^64 - 3.
process_instr-compares_example :
    (process_instr context (instr_of it_cmp (reg64 0) (reg64 1)) >>= λ r1.
    process_instr r1 (instr_of it_jc target target))
    ≡ some
        (record (with_es context (
          compared context
            (instr_of it_cmp (reg64 0) (reg64 1))
            64
            (known 5)
            (known (2 ^ 64 - 3))
            (known_pair it_cmp))) { exit = 9000 })
unfolding jcc_code comparison_code compares
process_instr-compares_example =
    process_instr-compares context (instr_of it_cmp (reg64 0) (reg64 1))
      (instr_of it_jc target target) 64 (known 5) (known (2 ^ 64 - 3)) below (known_pair it_cmp)
      refl refl refl

-- With the stack pointer in the middle of a stack of 16 bytes.
abbrev stack_cell : Cell
stack_cell = record { val = 1008; state = init_meta_state cs_stackrelative }

abbrev stack_context : RContext
stack_context = with_es context (record state {
  regs = known 5 ∷ known 6 ∷ known 7 ∷ known 8 ∷ stack_cell ∷ [];
  stack = replicate 16 (known 0);
  stack_start = 1000;
  stack_accessed = 1016;
  stack_top = 1016;
})

push_pop :
    IsPushPop stack_context
      (instr_of it_push (reg64 0) target)
      (instr_of it_pop (reg64 1) target)
      stack_cell
      (known 5)
      (known 6)
unfolding reg_val_type reg_is_gp cs_is_static ms_is_static
push_pop = record {
  pushes = refl;
  push_plain = refl;
  pops = refl;
  pop_plain = refl;
  pushed_reg = record {
    width = inr (inr (inr (refl, refl, refl)));
    type_ok = refl;
    gp = refl;
    there = refl;
  };
  popped_reg = record {
    width = inr (inr (inr (refl, refl, refl)));
    type_ok = refl;
    gp = refl;
    there = refl;
  };
  pushed_other = λ e. absurd (omega (arith, e));
  popped_other = λ e. absurd (omega (arith, e));
  known = refl;
  sp_there = refl;
  relative = refl;
  room = omega arith;
  inside = omega arith;
  top = refl;
  fits = omega arith;
}

process_pop-process_push_example :
    (es : EmuState) × ((process_instr stack_context (instr_of it_push (reg64 0) target) >>= λ r1.
    process_instr r1 (instr_of it_pop (reg64 1) target))
      ≡ some (with_es stack_context es))
    × (get_elem? es.regs 1 ≡ some (known 5))
    × ((n : ℕ) → 1 ≢ n → get_elem? es.regs n ≡ get_elem? stack_context.world.es.regs n)
    × (get_elem? es.stack 12 ≡ some (known 0))
    × (es ≡ record (stack_context.world.es) {
      regs = es.regs;
      stack = es.stack;
      stack_accessed = es.stack_accessed;
    })
process_pop-process_push_example =
    process_pop-process_push stack_context (instr_of it_push (reg64 0) target)
      (instr_of it_pop (reg64 1) target) stack_cell (known 5) (known 6) push_pop 12
      (inr (omega arith))
