-- ===== src/Emulate/Tests.antt =====
-- Concrete emulator states and values.
use dbrew.Prelude.{ℕ, ◌%◌, ◌^◌, ◌≤◌, ◌≡◌, refl, ◌⊎◌, inl, inr, true, some, [], ◌∷◌, ◌++◌, arith}
use dbrew.Prelude.{length, get_elem?}
use dbrew.Emulate.Saved.{savedstate_max, find_saved, saved, save_emu_state}
use dbrew.Emulate.RegisterLaws.{get_op_value-set_op_value}
use dbrew.Emulate.StackRoundTrip.{get_stack_value-set_stack_value}
use dbrew.Emulate.StateLaws.{es_is_equal_sound}
use dbrew.Emulate.SaveRestore.{IsStackValid, snapshot, restored, copy-clone, es_is_equal-clone}
use dbrew.Emulate.Meta.{cs_static, init_meta_state, ms_is_static, EmuValue}
use dbrew.Emulate.Meta.{combine_state4_flags}
use dbrew.Emulate.FlagLaws.{sub_flags, set_flags_sub_lem, set_flags_add_carry}
use dbrew.Emulate.Stack.{stack_value_bytes, get_stack_value, set_stack_state, set_stack_value}
use dbrew.Emulate.StackLaws.{low_bytes}
use dbrew.Emulate.Operand.{World, get_op_value, set_op_value, apply_base, apply_ip, apply_index}
use dbrew.Emulate.Operand.{apply_static_to_ind}
use dbrew.Emulate.OperandLaws.{addr_val, apply_static_to_ind-addr_val}
use dbrew.Emulate.State.{Cell, dead_cell, EmuState, dynamic_cell, normalize, cs_is_equal}
use dbrew.Emulate.State.{cells_equal, flag_list, none_static, stacks_equal, es_is_equal}
use dbrew.Emulate.State.{copy_ret, copy_emu_state, alloc_emu_state, clone_emu_state}
use dbrew.Emulate.Flags.{sign_bit, set_flags_sub, set_flags_add}
use dbrew.Emulate.SaveLaws.{save_emu_state_again, save_emu_state_lem}
use dbrew.Instr.Kinds.{rt_none, rt_gp8, rt_gp64, vt_8, vt_16, vt_64, OpType, ot_reg8, ot_ind64}
use dbrew.Instr.Kinds.{OpSegOverride, oso_none}
use dbrew.Instr.Types.{Operand}
use dbrew.Instr.Operands.{op_is_ind}
use dbrew.Instr.Registers.{reg_val_type}

abbrev static_cell : ℕ → Cell
static_cell v = record { val = v; state = init_meta_state cs_static }

-- A state at address 4096 with one register and a stack of four bytes, the upper two accessed.
abbrev small : EmuState
small = record {
  parent = some 4096;
  regs = static_cell 5 ∷ dead_cell ∷ [];
  reg_ip = 0;
  reg_ip_state = init_meta_state cs_static;
  flags = record {
    carry = dead_cell;
    zero_ = dead_cell;
    sign = dead_cell;
    overflow = dead_cell;
    parity = dead_cell;
  };
  stack = dead_cell ∷ dead_cell ∷ static_cell 1 ∷ dynamic_cell ∷ [];
  stack_start = 100;
  stack_accessed = 102;
  stack_top = 104;
  ret_stack = 0 ∷ 0 ∷ [];
  depth = 1;
}

small-IsStackValid : IsStackValid small
small-IsStackValid = record { top_eq = refl; start_le = omega arith; accessed_le = omega arith }

abbrev snap : EmuState
snap = snapshot small 4096 small

es_is_equal_sound_example :
    (ms_is_static (init_meta_state cs_static) ≡ true) × (◌≡◌ {A = ℕ} 5 5) × (◌≡◌ {A = ℕ} 1 1)
unfolding es_is_equal cells_equal cs_is_equal stacks_equal none_static flag_list normalize
    ms_is_static copy_ret
es_is_equal_sound_example =
    es_is_equal_sound small snap 0 (static_cell 5) (static_cell 5) refl refl refl refl

copy-clone_example :
    (s : EmuState) × (clone_emu_state small dead_cell 4096 small ≡ some s)
    × (copy_emu_state small s ≡ some (restored small small 4096 small))
copy-clone_example = copy-clone small small dead_cell 4096 small small-IsStackValid refl

es_is_equal-clone_example :
    (s : EmuState) × (clone_emu_state small dead_cell 4096 small ≡ some s)
    × (es_is_equal small s ≡ true)
unfolding none_static ms_is_static
es_is_equal-clone_example =
    es_is_equal-clone small dead_cell 4096 small small-IsStackValid refl refl

save_small : save_emu_state small dead_cell 4096 small [] ≡ some (saved 0 (snap ∷ []))
unfolding save_emu_state find_saved clone_emu_state copy_emu_state alloc_emu_state
save_small = refl

save_emu_state_again_example :
    save_emu_state small dead_cell 4096 small (snap ∷ []) ≡ some (saved 0 (snap ∷ []))
unfolding none_static ms_is_static
save_emu_state_again_example =
    save_emu_state_again small dead_cell 4096 small small-IsStackValid refl refl [] 0 (snap ∷ [])
      save_small

save_emu_state_lem_example :
    (s : EmuState) × (get_elem? (snap ∷ []) 0 ≡ some s)
    × (es_is_equal small s ≡ true)
    × (length (snap ∷ []) ≤ savedstate_max)
    × ((snap ∷ [] ≡ []) ⊎ ((◌≡◌ {A = ℕ} 0 0) × (snap ∷ [] ≡ [] ++ s ∷ [])))
unfolding none_static ms_is_static
save_emu_state_lem_example =
    save_emu_state_lem small dead_cell 4096 small small-IsStackValid refl refl [] 0 (snap ∷ [])
      (omega arith) save_small

abbrev byte_value : ℕ → EmuValue
byte_value v = record { val = v; type = vt_8; state = init_meta_state cs_static }

set_flags_sub_lem_example :
    set_flags_sub small (byte_value 3) (byte_value 200)
    ≡ some (
      combine_state4_flags cs_static cs_static,
      sub_flags small (combine_state4_flags cs_static cs_static) 7 3 200,
    )
unfolding sign_bit
set_flags_sub_lem_example =
    set_flags_sub_lem small (byte_value 3) (byte_value 200) 7 refl refl (omega arith) (omega arith)

set_flags_add_carry_example :
    (es : EmuState) × (set_flags_add small (byte_value 1) (byte_value 128) ≡ some es)
    × (es.flags.carry.val ≡ 1)
set_flags_add_carry_example =
    set_flags_add_carry small (byte_value 1) (byte_value 128) refl refl (omega arith) (omega arith)
      (omega arith)

-- The offset 0 and a value of two bytes.
abbrev at_0 : EmuValue
at_0 = record { val = 0; type = vt_64; state = init_meta_state cs_static }

abbrev word_value : EmuValue
word_value = record { val = 0x12345; type = vt_16; state = init_meta_state cs_static }

get_stack_value-set_stack_value_example :
    (es1 : EmuState) × (es2 : EmuState) × (set_stack_value small word_value at_0 ≡ some es1)
    × (set_stack_state es1 at_0 vt_16 (init_meta_state cs_static) ≡ some es2)
    × (get_stack_value es2 vt_16 at_0
        ≡ some
            (record { val = low_bytes 2 0x12345; type = vt_16; state = init_meta_state cs_static }))
    × (get_elem? es2.stack 3 ≡ some dynamic_cell)
    × (es2.regs ≡ small.regs)
unfolding stack_value_bytes
get_stack_value-set_stack_value_example =
    get_stack_value-set_stack_value small word_value at_0 (init_meta_state cs_static) 2 3 refl
      (omega arith) refl (inr (omega arith))

-- The memory at the first register plus 16.
abbrev ind_operand : Operand
ind_operand = record {
  val = 16;
  type = ot_ind64;
  reg = record { rt = rt_gp64; ri = 0 };
  ireg = record { rt = rt_none; ri = 0 };
  scale = 0;
  seg = oso_none;
}

abbrev applied_operand : Operand
applied_operand = record ind_operand { val = 21; reg = record { rt = rt_none; ri = 0 } }

apply_static_to_ind-addr_val_example :
    (addr_val small applied_operand ≡ addr_val small ind_operand)
    × (◌≡◌ {A = OpType} ot_ind64 ot_ind64)
    × (◌≡◌ {A = OpSegOverride} oso_none oso_none)
unfolding apply_static_to_ind apply_base apply_ip apply_index op_is_ind ms_is_static
apply_static_to_ind-addr_val_example =
    apply_static_to_ind-addr_val small ind_operand applied_operand refl refl (omega arith) refl

abbrev small_world : World
small_world = record { es = small; mem = λ a. 0; fs_mem = λ a. 0 }

abbrev reg_operand : Operand
reg_operand = record ind_operand { type = ot_reg8; reg = record { rt = rt_gp8; ri = 0 } }

get_op_value-set_op_value_example :
    (w' : World) × (set_op_value (byte_value 300) small_world reg_operand ≡ some w')
    × (get_op_value w' reg_operand
        ≡ some (record { val = 300 % 2 ^ 8; type = vt_8; state = init_meta_state cs_static }))
    × (get_elem? w'.es.regs 0 ≡ some (static_cell (300 % 2 ^ 8)))
    × (get_elem? w'.es.regs 1 ≡ some dead_cell)
    × (w'.mem ≡ small_world.mem)
unfolding reg_val_type
get_op_value-set_op_value_example =
    get_op_value-set_op_value (byte_value 300) small_world reg_operand 8 1 (static_cell 5)
      (inl (refl, refl, refl)) refl refl (omega arith) (λ e. omega (arith, e))
