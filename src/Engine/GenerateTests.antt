-- ===== src/Engine/GenerateTests.antt =====
-- Tests of src/engine.c and src/generate.c: all passes on two captured blocks.
use dbrew.Prelude.{ℕ, zero, suc, ◌+◌, ◌%◌, ◌≤◌, ◌<◌, ◌≡◌, refl, inl, inr, false, Option, none}
use dbrew.Prelude.{some, List, [], ◌∷◌, arith, ◌>>=◌, get_elem?}
use mathlib.Core.Path.{subst}
use dbrew.Memory.{write, write32, copy}
use dbrew.Emulate.Meta.{cs_static, init_meta_state}
use dbrew.Emulate.State.{dead_cell, EmuState}
use dbrew.Instr.Kinds.{rt_none, vt_none, ot_none, oso_none, of_0, vex_no, oe_none, sc_none}
use dbrew.Instr.Copy.{instr_is_jcc}
use dbrew.Instr.Mnemonics.{it_cltq, it_ret, it_jnz}
use dbrew.Instr.Types.{Operand, Instr}
use dbrew.Capture.InstrLaws.{instrs_in}
use dbrew.Capture.Blocks.{new_bb, push_capture_bb}
use dbrew.Capture.Types.{Cbb}
use dbrew.Capture.Segments.{take, segment}
use dbrew.Generate.Single.{gen_ret, cmov_opcode}
use dbrew.Generate.Block.{gen_by_type, gen_one, gen_from, generate}
use dbrew.Generate.Arith.{gen_cltq}
use dbrew.Engine.Pass1Ends.{pass1-pass1_fuel}
use dbrew.Engine.Binary.{position, gen_cbb, gen_cbbs, align_storage, Binary, generated_code}
use dbrew.Engine.Binary.{link_generated, generate_binary_from_captured}
use dbrew.Engine.Emit.{write_bytes, emit_from, GenState, put_bb, generate_block}
use dbrew.Engine.Blocks.{diff32, between, jcc_code}
use dbrew.Engine.Place.{move_block, choose_jumps, jump_bytes, place}
use dbrew.Engine.Link.{write_jcc, write_jump, link_block, link, place_and_link}
use dbrew.Engine.BinaryLaws.{IsFinal, generate_binary_from_captured_lem}
use dbrew.Engine.BinaryLaws.{generate_binary_from_captured-IsFinal}
use dbrew.Engine.Emitted.{joined}
use dbrew.Engine.Pass1.{push_successors, leave_hole, generate_next, visit, finished, pass1}
use dbrew.Engine.Pass1.{pending, pass1_fuel}
use dbrew.Engine.Reach.{IsReady, block_room}
use dbrew.Engine.Laid.{HasCode}
use dbrew.Engine.Start.{CanGenerate}
use dbrew.Engine.Storage.{reserve_code_storage, use_code_storage}

-- A loop with one instruction, and a return.
abbrev no_operand : Operand
no_operand = record {
  val = 0;
  type = ot_none;
  reg = record { rt = rt_none; ri = 0 };
  ireg = record { rt = rt_none; ri = 0 };
  scale = 0;
  seg = oso_none;
}

abbrev cltq : Instr
cltq = record {
  type = it_cltq;
  form = of_0;
  vtype = vt_none;
  dst = no_operand;
  src = no_operand;
  src2 = no_operand;
  addr = 0;
  len = 2;
  pt_len = 0;
  pt_vex_p = vex_no;
  pt_pset = 0;
  pt_opc = 0 ∷ 0 ∷ 0 ∷ 0 ∷ [];
  pt_enc = oe_none;
  pt_schange = sc_none;
  info_mem_addr = none;
}

abbrev no_state : EmuState
no_state = record {
  parent = none;
  regs = [];
  reg_ip = 0;
  reg_ip_state = init_meta_state cs_static;
  flags = record {
    carry = dead_cell;
    zero_ = dead_cell;
    sign = dead_cell;
    overflow = dead_cell;
    parity = dead_cell;
  };
  stack = [];
  stack_start = 100;
  stack_accessed = 100;
  stack_top = 100;
  ret_stack = [];
  depth = 0;
}

abbrev captured_loop : Cbb
captured_loop = record (new_bb 4096 (some 0) none) {
  count = 1;
  instr = some 0;
  next_branch = some 0;
  next_fall_through = some 1;
  end_type = it_jnz;
}

abbrev captured_exit : Cbb
captured_exit = record (new_bb 5000 (some 0) none) { count = 1; instr = some 1; end_type = it_ret }

abbrev gen_state : GenState
gen_state = record {
  context = record {
    cap_instr = cltq ∷ record cltq { type = it_ret } ∷ [];
    cap_instr_capacity = 2;
    cap_bb = captured_loop ∷ captured_exit ∷ [];
    cap_bb_capacity = 3;
    current_cap_bb = none;
    cap_stack = [];
    world = record { es = no_state; mem = λ a. 0; fs_mem = λ a. 0 };
    es_self = 4096;
    saved_state = [];
    cc = none;
    add_inlining_hints = false;
    junk = cltq;
    junk_es = no_state;
    junk_cell = dead_cell;
    e = none;
    exit = 0;
    returned = false;
  };
  cs = record { size = 3000; fullsize = 4096; buf = 8192; used = 10 };
  gen_order = [];
  memory = λ a. a;
  generated_code_addr = 0;
  generated_code_size = 0;
}

loop_HasCode :
    HasCode gen_state.context.junk.dst gen_state.context.cap_instr captured_loop (0x48 ∷ 0x98 ∷ [])
unfolding new_bb generate gen_from gen_one gen_by_type cmov_opcode gen_cltq instrs_in segment take
    joined
loop_HasCode = ((0x48 ∷ 0x98 ∷ []) ∷ [], refl, refl)

exit_HasCode :
    HasCode gen_state.context.junk.dst gen_state.context.cap_instr captured_exit (0xC3 ∷ [])
unfolding new_bb generate gen_from gen_one gen_by_type cmov_opcode gen_ret instrs_in segment take
    joined
exit_HasCode = ((0xC3 ∷ []) ∷ [], refl, refl)

loop_IsReady : IsReady gen_state.context.junk.dst gen_state.context.cap_instr 2 captured_loop
unfolding new_bb instr_is_jcc
loop_IsReady = record {
  bytes = 0x48 ∷ 0x98 ∷ [];
  has_code = loop_HasCode;
  no_jcc8 = refl;
  no_jump = refl;
  successors = inr (0, 1, refl, refl, refl, omega arith, omega arith);
}

exit_IsReady : IsReady gen_state.context.junk.dst gen_state.context.cap_instr 2 captured_exit
unfolding new_bb instr_is_jcc
exit_IsReady = record {
  bytes = 0xC3 ∷ [];
  has_code = exit_HasCode;
  no_jcc8 = refl;
  no_jump = refl;
  successors = inl refl;
}

-- A property of both blocks.
of_two :
    (P : Cbb → Type 0)
    → P captured_loop
    → P captured_exit
    → (i : ℕ) (c : Cbb) → get_elem? (captured_loop ∷ captured_exit ∷ []) i ≡ some c
    → P c
of_two P a b zero c e = let z : captured_loop ≡ c = ground arith in subst P z a
of_two P a b (suc zero) c e = let z : captured_exit ≡ c = ground arith in subst P z b
of_two P a b (suc (suc i)) c e = absurd (ground arith)

gen_state-CanGenerate : CanGenerate gen_state
unfolding new_bb pending block_room generate gen_from gen_one gen_by_type cmov_opcode gen_ret
    gen_cltq instrs_in segment take joined
gen_state-CanGenerate = record {
  ok = refl;
  stack = refl;
  order = refl;
  some_block = omega arith;
  few = omega arith;
  fresh = of_two (λ c. c.size ≡ none) refl refl;
  ready = of_two (IsReady cltq.dst gen_state.context.cap_instr 2) loop_IsReady exit_IsReady;
  some_code = λ c e.
      let z : captured_loop ≡ c = ground arith in
      subst (λ d. 26 < block_room cltq.dst gen_state.context.cap_instr d) z (omega arith);
  room = omega arith;
  fits = omega arith;
  in_range = omega arith;
}

generate_binary_from_captured_lem_example :
    (r : Binary) × (generate_binary_from_captured gen_state ≡ some r)
    × (r.state.context.e ≡ none)
    × (r.state.generated_code_addr % 64 ≡ 0)
    × (8202 ≤ r.state.generated_code_addr)
    × (r.state.generated_code_addr + r.state.generated_code_size ≤ 12288)
    × (get_elem? r.state.gen_order 0 ≡ some 0)
    × (r.state.memory 5 ≡ 5)
generate_binary_from_captured_lem_example =
    generate_binary_from_captured_lem gen_state 5 gen_state-CanGenerate (omega arith)

abbrev gen_binary : Binary
gen_binary = (generate_binary_from_captured_lem gen_state 5 gen_state-CanGenerate (omega arith)).0

generate_binary_from_captured-IsFinal_example : IsFinal gen_state gen_binary 0 0
generate_binary_from_captured-IsFinal_example =
    let (r, e, ok, al, lo, hi, first, m) =
      generate_binary_from_captured_lem gen_state 5 gen_state-CanGenerate (omega arith) in
    generate_binary_from_captured-IsFinal gen_state r 0 0 gen_state-CanGenerate e first

abbrev loop_binary : Option (ℕ × ℕ × List ℕ)
loop_binary = do
  r ← generate_binary_from_captured gen_state
  let m = r.state.memory
  some (
    r.state.generated_code_addr,
    r.state.generated_code_size,
    m 8256 ∷ m 8257 ∷ m 8258 ∷ m 8259 ∷ m 8260 ∷ [],
  )

-- The code starts behind the padding, and the jump goes back over the two bytes of the loop and its
-- own.
loop_binary_bytes : loop_binary ≡ some (8256, 5, 0x48 ∷ 0x98 ∷ 0x75 ∷ 252 ∷ 0xC3 ∷ [])
unfolding generate_binary_from_captured align_storage reserve_code_storage use_code_storage
    push_capture_bb pass1 pass1_fuel pending visit generate_next generate_block emit_from
    write_bytes push_successors leave_hole put_bb new_bb gen_one gen_by_type cmov_opcode gen_ret
    gen_cltq instrs_in segment take link_generated gen_cbbs gen_cbb position generated_code
    place_and_link place link link_block move_block choose_jumps jump_bytes write_jcc write_jump
    write32 write copy diff32 between jcc_code instr_is_jcc
loop_binary_bytes = refl

pass1-pass1_fuel_example :
    (r : Option GenState) × ((k : ℕ) → pass1_fuel gen_state ≤ k → pass1 k gen_state ≡ finished r)
pass1-pass1_fuel_example = pass1-pass1_fuel gen_state
