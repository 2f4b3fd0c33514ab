-- ===== src/Process/PushPop.antt =====
-- PUSH and POP on registers, where the stack pointer is known relative to the emulated stack.
use dbrew.Prelude.{ℕ, ◌+◌, ◌-◌, ◌%◌, ◌^◌, ◌≤◌, ◌<◌, ◌≡◌, refl, sym, ap, ◌∙◌, ◌≢◌, ◌⊎◌, true}
use dbrew.Prelude.{some, List, arith, ◌>>=◌, length, get_elem?, set, get_elem?-set_self}
use dbrew.Prelude.{get_elem?-set_ne, get_elem?-bound}
use mathlib.Core.Path.{subst}
use native.Mathlib.Decide.{ℕ_discrete}
use dbrew.Emulate.StackRoundTrip.{get_stack_value-set_stack_value, set_stack_value-rest}
use dbrew.Emulate.StackRoundTrip.{set_stack_state-rest}
use dbrew.Emulate.Meta.{cs_static, cs_stackrelative, init_meta_state, ms_is_static, EmuValue}
use dbrew.Emulate.Stack.{get_stack_offset, stack_value_bytes, get_stack_value}
use dbrew.Emulate.StackLaws.{low_bytes}
use dbrew.Emulate.Operand.{get_op_value}
use dbrew.Emulate.State.{Cell, EmuState}
use dbrew.Instr.Kinds.{vt_32, vt_64}
use dbrew.Instr.Mnemonics.{it_push, it_pop}
use dbrew.Instr.Types.{ri_sp, Instr}
use dbrew.Capture.Types.{RContext}
use dbrew.Process.Dispatch.{process_by_type, process_instr}
use dbrew.Process.StackSteps.{with_sp, address, IsRegOf-type, process_push_step}
use dbrew.Process.StackSteps.{process_pop_step, pushed_sp, get_stack_offset-inside}
use dbrew.Process.StackSteps.{low_bytes_lem, StackOnly, StackOnly-trans}
use dbrew.Process.StackSteps.{get_stack_offset-StackOnly}
use dbrew.Process.Fold.{process_instr-plain}
use dbrew.Process.Step.{with_es}
use dbrew.Process.Known.{IsRegOf, reg_value, get_op_value-IsRegOf, put_reg, set_result-IsRegOf}

-- PUSH and then POP of 64-bit registers, the first with a known value. The stack pointer is known
-- relative to the emulated stack, which has room for the value.
pub record IsPushPop (r : RContext) (i1 i2 : Instr) (sp c d : Cell) : Type 0 where
  pub pushes : i1.type ≡ it_push
  pub push_plain : i1.pt_len ≡ 0
  pub pops : i2.type ≡ it_pop
  pub pop_plain : i2.pt_len ≡ 0
  pub pushed_reg : IsRegOf r.world.es i1.dst vt_64 64 c
  pub popped_reg : IsRegOf r.world.es i2.dst vt_64 64 d
  pub pushed_other : ri_sp ≢ i1.dst.reg.ri
  pub popped_other : i2.dst.reg.ri ≢ ri_sp
  pub known : ms_is_static c.state ≡ true
  pub sp_there : get_elem? r.world.es.regs ri_sp ≡ some sp
  pub relative : sp.state.c_state ≡ cs_stackrelative
  pub room : r.world.es.stack_start + 8 ≤ sp.val
  pub inside : sp.val ≤ r.world.es.stack_top
  pub top : r.world.es.stack_top ≡ r.world.es.stack_start + length r.world.es.stack
  pub fits : r.world.es.stack_top < 2 ^ 64

module _ (r : RContext) (i1 i2 : Instr) (sp c d : Cell) (h : IsPushPop r i1 i2 sp c d) where
  abbrev at : ℕ
  at = sp.val - 8 - r.world.es.stack_start

  abbrev off : EmuValue
  off = record { val = at; type = vt_32; state = init_meta_state cs_static }

  -- The state in which PUSH stores the value.
  abbrev lowered : EmuState
  lowered = with_sp r.world.es sp (sp.val + (2 ^ 64 - 8))

  abbrev restored : Cell
  restored = record { val = c.val % 2 ^ 64; state = init_meta_state c.state.c_state }

  lowered_offset : get_stack_offset lowered (address sp (sp.val + (2 ^ 64 - 8))) ≡ some off
  unfolding get_stack_offset
  lowered_offset =
      let p = pushed_sp sp.val r.world.es.stack_start r.world.es.stack_top h.room h.inside h.fits in
      let z = p.0 in
      rw z (
        get_stack_offset-inside lowered (sp.val - 8) sp.state h.relative (omega (arith, h.room))
          (omega (arith, h.room, h.inside)) p.1)

  lowered_reg :
      get_op_value (record (r.world) { es = lowered }) i1.dst ≡ some (reg_value c vt_64 64)
  lowered_reg =
      get_op_value-IsRegOf (record (r.world) { es = lowered }) i1.dst vt_64 64 c
        (record {
          width = h.pushed_reg.width;
          type_ok = h.pushed_reg.type_ok;
          gp = h.pushed_reg.gp;
          there =
              get_elem?-set_ne r.world.es.regs ri_sp i1.dst.reg.ri
                (record sp { val = (sp.val + (2 ^ 64 - 8)) % 2 ^ 64 }) h.pushed_other
              ∙ h.pushed_reg.there;
        })

  push_goes :
      (k : ℕ)
      → (k < at) ⊎ (at + 8 ≤ k)
      → (es2 : EmuState) × (process_instr r i1 ≡ some (with_es r es2))
        × StackOnly lowered es2
        × (get_stack_value es2 vt_64 off
            ≡ some (record {
              val = c.val % 2 ^ 64;
              type = vt_64;
              state = init_meta_state c.state.c_state;
            }))
        × (get_elem? es2.stack k ≡ get_elem? r.world.es.stack k)
  unfolding process_by_type StackOnly stack_value_bytes
  push_goes k out =
      let v = reg_value c vt_64 64 in
      let (es1, es2, s1, s2, g, e, _) =
        get_stack_value-set_stack_value lowered v off c.state 8 k refl
          (omega (arith, h.room, h.inside, h.top)) refl out in
      let o1 : StackOnly lowered es1 = set_stack_value-rest lowered es1 v off s1 in
      let o2 : StackOnly es1 es2 = set_stack_state-rest es1 es2 off vt_64 c.state s2 in
      let addr = address sp (sp.val + (2 ^ 64 - 8)) in
      let step =
        process_push_step r i1 sp (c.val % 2 ^ 64) c.state off es1 es2
          (IsRegOf-type r.world.es i1.dst 64 c h.pushed_reg) h.sp_there lowered_reg h.known
          lowered_offset (get_stack_offset-StackOnly lowered es1 addr o1 ∙ lowered_offset) s1 s2 in
      let z : low_bytes 8 (c.val % 2 ^ 64) ≡ c.val % 2 ^ 64 =
        low_bytes_lem (c.val % 2 ^ 64) ∙ omega arith in
      (
        es2,
        process_instr-plain r i1 it_push h.push_plain h.pushes ∙ step,
        StackOnly-trans lowered es1 es2 o1 o2,
        g
            ∙ ap
                (λ n.
                  some (record { val = n; type = vt_64; state = init_meta_state c.state.c_state }))
                z,
        e,
      )

  -- The stack pointer behind PUSH.
  abbrev sp1 : Cell
  sp1 = record sp { val = (sp.val + (2 ^ 64 - 8)) % 2 ^ 64 }

  -- The registers behind POP, if those behind PUSH are `regs`.
  abbrev final : List Cell → List Cell
  final regs =
      set (set regs i2.dst.reg.ri (record restored { val = c.val % 2 ^ 64 % 2 ^ 64 })) ri_sp
        (record sp1 { val = (sp1.val + 8) % 2 ^ 64 })

  self : get_elem? (set r.world.es.regs ri_sp sp1) ri_sp ≡ some sp1
  self =
      get_elem?-set_self r.world.es.regs ri_sp sp1
        (get_elem?-bound r.world.es.regs ri_sp sp h.sp_there)

  popped_lem :
      (regs : List Cell)
      → regs ≡ set r.world.es.regs ri_sp sp1
      → get_elem? (final regs) i2.dst.reg.ri ≡ some restored
  popped_lem regs z =
      let new : Cell = record restored { val = c.val % 2 ^ 64 % 2 ^ 64 } in
      let same : new.val ≡ restored.val = omega arith in
      get_elem?-set_ne (set regs i2.dst.reg.ri new) ri_sp i2.dst.reg.ri
        (record sp1 { val = (sp1.val + 8) % 2 ^ 64 }) (λ x. h.popped_other (sym x))
      ∙ get_elem?-set_self regs i2.dst.reg.ri new (
          get_elem?-bound regs i2.dst.reg.ri d (
            ap (λ l. get_elem? l i2.dst.reg.ri) z
            ∙ get_elem?-set_ne r.world.es.regs ri_sp i2.dst.reg.ri sp1 (λ x. h.popped_other (sym x))
            ∙ h.popped_reg.there))
      ∙ ap (λ n. some (record restored { val = n })) same

  others_lem :
      (regs : List Cell)
      → regs ≡ set r.world.es.regs ri_sp sp1
      → (n : ℕ) → i2.dst.reg.ri ≢ n
      → get_elem? (final regs) n ≡ get_elem? r.world.es.regs n
  others_lem regs z n ne =
      let new : Cell = record restored { val = c.val % 2 ^ 64 % 2 ^ 64 } in
      let old : Cell = record sp1 { val = (sp1.val + 8) % 2 ^ 64 } in
      let dropped = get_elem?-set_ne regs i2.dst.reg.ri n new ne in
      elim (ℕ_discrete ri_sp n) [
        | no other ↦
            get_elem?-set_ne (set regs i2.dst.reg.ri new) ri_sp n old other
            ∙ dropped
            ∙ ap (λ l. get_elem? l n) z
            ∙ get_elem?-set_ne r.world.es.regs ri_sp n sp1 other
        | yes x ↦
            let back : old.val ≡ sp.val = omega (arith, h.inside, h.fits) in
            let there = ap (λ l. get_elem? l ri_sp) z ∙ self in
            let there2 = get_elem?-set_ne regs i2.dst.reg.ri ri_sp new h.popped_other ∙ there in
            let bound = get_elem?-bound (set regs i2.dst.reg.ri new) ri_sp sp1 there2 in
            subst (λ m. get_elem? (final regs) m ≡ get_elem? r.world.es.regs m) x
              (get_elem?-set_self (set regs i2.dst.reg.ri new) ri_sp old bound
                ∙ ap (λ m. some (record sp { val = m })) back
                ∙ sym h.sp_there)
      ]

  -- A register with a known value is pushed and then a register popped, neither of them the stack
  -- pointer, 64 bits wide. The stack pointer is relative to the emulated stack, and the stack has
  -- room. Both instructions are emulated without an error and capture nothing. The popped register
  -- has the pushed value and its capture state. All other registers, the stack pointer among them,
  -- are as before, and so are the bytes of the stack outside the 8 pushed ones and the rest of the
  -- state, except how far the stack has been accessed.
  pub process_pop-process_push :
      (k : ℕ)
      → (k < at) ⊎ (at + 8 ≤ k)
      → (es : EmuState) × ((process_instr r i1 >>= λ r1. process_instr r1 i2) ≡ some (with_es r es))
        × (get_elem? es.regs i2.dst.reg.ri ≡ some restored)
        × ((n : ℕ) → i2.dst.reg.ri ≢ n → get_elem? es.regs n ≡ get_elem? r.world.es.regs n)
        × (get_elem? es.stack k ≡ get_elem? r.world.es.stack k)
        × (es ≡ record (r.world.es) {
          regs = es.regs;
          stack = es.stack;
          stack_accessed = es.stack_accessed;
        })
  unfolding process_by_type StackOnly
  process_pop-process_push k out =
      let (es2, p, o, g, e) = push_goes k out in
      let regs : es2.regs ≡ set r.world.es.regs ri_sp sp1 = ap (λ (x : EmuState). x.regs) o in
      let v : EmuValue = record { val = c.val % 2 ^ 64; type = vt_64; state = restored.state } in
      let there = ap (λ l. get_elem? l ri_sp) regs ∙ self in
      let dst : IsRegOf es2 i2.dst vt_64 64 d = record {
        width = h.popped_reg.width;
        type_ok = h.popped_reg.type_ok;
        gp = h.popped_reg.gp;
        there =
            ap (λ l. get_elem? l i2.dst.reg.ri) regs
            ∙ get_elem?-set_ne r.world.es.regs ri_sp i2.dst.reg.ri sp1 (λ x. h.popped_other (sym x))
            ∙ h.popped_reg.there;
      } in
      let es3 = put_reg es2 i2.dst.reg.ri (record restored { val = c.val % 2 ^ 64 % 2 ^ 64 }) in
      let there3 =
        get_elem?-set_ne es2.regs i2.dst.reg.ri ri_sp
          (record restored { val = c.val % 2 ^ 64 % 2 ^ 64 }) h.popped_other
        ∙ there in
      let step =
        process_pop_step (with_es r es2) i2 sp1 v off es3
          (IsRegOf-type r.world.es i2.dst 64 d h.popped_reg) there
          (get_stack_offset-StackOnly lowered es2 (address sp (sp.val + (2 ^ 64 - 8))) o
            ∙ lowered_offset)
          g h.known (set_result-IsRegOf (with_es r es2) v i2.dst 64 d dst) there3 in
      (
        with_sp es3 sp1 (sp1.val + 8),
        rw p (process_instr-plain (with_es r es2) i2 it_pop h.pop_plain h.pops ∙ step),
        popped_lem es2.regs regs,
        others_lem es2.regs regs,
        e,
        ap {A = EmuState}
            (λ x. record x {
              regs = (with_sp es3 sp1 (sp1.val + 8)).regs;
              stack = es2.stack;
              stack_accessed = es2.stack_accessed;
            })
            o,
      )
