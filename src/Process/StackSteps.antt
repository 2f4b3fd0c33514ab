-- ===== src/Process/StackSteps.antt =====
-- The steps of PUSH and POP on registers.
use dbrew.Prelude.{ℕ, ◌+◌, ◌-◌, ◌%◌, ◌^◌, ◌≤◌, ◌<◌, ◌≡◌, refl, ap, ◌∙◌, inl, inr, true, some}
use dbrew.Prelude.{arith, lt→ltb, le→leb, get_elem?, get_elem?-set_self, get_elem?-bound}
use dbrew.Emulate.Meta.{cs_static, cs_stackrelative, MetaState, init_meta_state, ms_is_static}
use dbrew.Emulate.Meta.{EmuValue, emu_value}
use dbrew.Emulate.Stack.{get_stack_offset, get_stack_value, set_stack_state, set_stack_value}
use dbrew.Emulate.StackLaws.{low_bytes}
use dbrew.Emulate.Operand.{get_mem_value, set_mem_value, set_mem_state, get_op_value}
use dbrew.Emulate.Operand.{set_reg_val}
use dbrew.Emulate.State.{Cell, EmuState}
use dbrew.Instr.Kinds.{vt_32, vt_64, ot_reg64}
use dbrew.Instr.Types.{ri_sp, Operand, Instr}
use dbrew.Capture.Types.{RContext}
use dbrew.Process.Stack.{stack_pointer, move_sp, capture_unknown, pop_bytes, process_pop}
use dbrew.Process.Stack.{push_bytes, extend_push, process_push}
use dbrew.Process.Step.{with_es, set_result}
use dbrew.Process.Known.{IsRegOf, put_reg}

-- The state whose stack pointer is `n`.
abbrev pub with_sp : EmuState → Cell → ℕ → EmuState
with_sp es sp n = put_reg es ri_sp (record sp { val = n % 2 ^ 64 })

abbrev pub address : Cell → ℕ → EmuValue
address sp n = record { val = n % 2 ^ 64; type = vt_64; state = sp.state }

move_sp_lem :
    (es : EmuState) (sp : Cell) (n : ℕ)
    → get_elem? es.regs ri_sp ≡ some sp
    → move_sp es n ≡ some (with_sp es sp (sp.val + n))
unfolding move_sp set_reg_val
move_sp_lem es sp n e = rw (move_sp, e) refl

stack_pointer_lem :
    (es : EmuState) (sp : Cell)
    → get_elem? es.regs ri_sp ≡ some sp
    → stack_pointer es ≡ some (record { val = sp.val; type = vt_64; state = sp.state })
unfolding stack_pointer emu_value
stack_pointer_lem es sp e = rw (stack_pointer, e) refl

pub IsRegOf-type :
    (es : EmuState) (o : Operand) (w : ℕ) (c : Cell) → IsRegOf es o vt_64 w c → o.type ≡ ot_reg64
IsRegOf-type es o w c h = elim (h.width) [
  | inl (a, b, _) ↦ absurd (ground (arith, b))
  | inr (inl (a, b, _)) ↦ absurd (ground (arith, b))
  | inr (inr (inl (a, b, _))) ↦ absurd (ground (arith, b))
  | inr (inr (inr (a, b, _))) ↦ a
]

pub process_push_step :
    (r : RContext) (i : Instr) (sp : Cell) (x : ℕ) (ms : MetaState) (off : EmuValue)
    (es1 es2 : EmuState)
    → let v : EmuValue = record { val = x; type = vt_64; state = ms } in
      let es = with_sp r.world.es sp (sp.val + (2 ^ 64 - 8)) in
      let addr = address sp (sp.val + (2 ^ 64 - 8)) in
      i.dst.type ≡ ot_reg64
      → get_elem? r.world.es.regs ri_sp ≡ some sp
      → get_op_value (record (r.world) { es = es }) i.dst ≡ some v
      → ms_is_static ms ≡ true
      → get_stack_offset es addr ≡ some off
      → get_stack_offset es1 addr ≡ some off
      → set_stack_value es v off ≡ some es1
      → set_stack_state es1 off vt_64 ms ≡ some es2
      → process_push r i ≡ some (with_es r es2)
unfolding process_push push_bytes extend_push set_mem_value set_mem_state capture_unknown
process_push_step r i sp x ms off es1 es2 t e g k o o1 s s1 =
    let n = sp.val + (2 ^ 64 - 8) in
    let m = move_sp_lem r.world.es sp (2 ^ 64 - 8) e in
    let self =
      get_elem?-set_self r.world.es.regs ri_sp (record sp { val = n % 2 ^ 64 })
        (get_elem?-bound r.world.es.regs ri_sp sp e) in
    let p = stack_pointer_lem (with_sp r.world.es sp n) (record sp { val = n % 2 ^ 64 }) self in
    rw (process_push, t, push_bytes, m, p, g, set_mem_value, o, s, set_mem_state, o1, s1, k) refl

pub process_pop_step :
    (r : RContext) (i : Instr) (sp : Cell) (v off : EmuValue) (es : EmuState)
    → i.dst.type ≡ ot_reg64
    → get_elem? r.world.es.regs ri_sp ≡ some sp
    → get_stack_offset r.world.es (record { val = sp.val; type = vt_64; state = sp.state })
      ≡ some off
    → get_stack_value r.world.es vt_64 off ≡ some v
    → ms_is_static v.state ≡ true
    → set_result r v i.dst ≡ some (with_es r es)
    → get_elem? es.regs ri_sp ≡ some sp
    → process_pop r i ≡ some (with_es r (with_sp es sp (sp.val + 8)))
unfolding process_pop pop_bytes get_mem_value capture_unknown
process_pop_step r i sp v off es t e o g k s e1 =
    let p = stack_pointer_lem r.world.es sp e in
    let m = move_sp_lem es sp 8 e1 in
    rw (process_pop, t, pop_bytes, p, get_mem_value, o, g, s, m, k) refl

pub pushed_sp :
    (a s t : ℕ)
    → s + 8 ≤ a
    → a ≤ t
    → t < 2 ^ 64
    → ((a + (2 ^ 64 - 8)) % 2 ^ 64 ≡ a - 8) × ((a - 8 - s) % 2 ^ 64 ≡ a - 8 - s)
pushed_sp a s t h l b = (omega arith, omega arith)

pub get_stack_offset-inside :
    (es : EmuState) (n : ℕ) (ms : MetaState)
    → ms.c_state ≡ cs_stackrelative
    → es.stack_start ≤ n
    → n < es.stack_top
    → (n - es.stack_start) % 2 ^ 64 ≡ n - es.stack_start
    → get_stack_offset es (record { val = n; type = vt_64; state = ms })
      ≡ some (record { val = n - es.stack_start; type = vt_32; state = init_meta_state cs_static })
unfolding get_stack_offset
get_stack_offset-inside es n ms e l b z =
    let x = le→leb es.stack_start n l in let y = lt→ltb n es.stack_top b in rw (x, y, e, z) refl

pub low_bytes_lem : (n : ℕ) → low_bytes 8 n ≡ n % 2 ^ 64
low_bytes_lem n = omega arith

-- Only the registers and the stack may differ.
unfoldable pub StackOnly : EmuState → EmuState → Type 0
StackOnly es es1 = es1 ≡ record es { stack = es1.stack; stack_accessed = es1.stack_accessed }

pub StackOnly-trans : (a b c : EmuState) → StackOnly a b → StackOnly b c → StackOnly a c
unfolding StackOnly
StackOnly-trans a b c h k =
    let f : EmuState → EmuState =
      λ x. record x { stack = c.stack; stack_accessed = c.stack_accessed } in
    k ∙ ap f h

pub get_stack_offset-StackOnly :
    (es es1 : EmuState) (v : EmuValue)
    → StackOnly es es1
    → get_stack_offset es1 v ≡ get_stack_offset es v
unfolding StackOnly get_stack_offset
get_stack_offset-StackOnly es es1 v h = ap (λ x. get_stack_offset x v) h
