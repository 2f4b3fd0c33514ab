-- ===== src/Emulate/StackRoundTrip.antt =====
-- Storing a value on the emulated stack and loading it.
use dbrew.Prelude.{ℕ, zero, suc, ◌+◌, ◌-◌, ◌≤◌, ◌<◌, ◌≡◌, refl, ap, ◌∙◌, ◌⊎◌, inl, inr, true}
use dbrew.Prelude.{false, some, List, arith, ltb, Bool-cases, lt→ltb, ltb-false, Option-cases}
use dbrew.Prelude.{length, get_elem?}
use dbrew.Emulate.Meta.{CaptureState, cs_dead, cs_dynamic, cs_static, cs_stackrelative}
use dbrew.Emulate.Meta.{cs_static2, MetaState, init_meta_state, cs_is_static, ms_is_static}
use dbrew.Emulate.Meta.{EmuValue, combine_state}
use dbrew.Emulate.Stack.{get_stack_state, read_cells, combine_cells, stack_value_bytes}
use dbrew.Emulate.Stack.{get_stack_value, state_bytes, access, set_stack_state, set_stack_value}
use dbrew.Emulate.StackLaws.{val_at, state_at, low_bytes, write_cells_lem, set_states_lem}
use dbrew.Emulate.State.{Cell, EmuState}
use dbrew.Instr.Kinds.{ValType}

read_cells-values :
    (st st' : List Cell) (off n : ℕ)
    → ((i : ℕ) → val_at st i ≡ val_at st' i)
    → read_cells st off n ≡ read_cells st' off n
unfolding read_cells
read_cells-values st st' off zero h = refl
read_cells-values st st' off (suc n) h = elim (Option-cases (get_elem? st off)) [
  | inl e ↦ elim (Option-cases (get_elem? st' off)) [
    | inl e' ↦ rw (e, e') refl
    | inr (c', e') ↦ absurd (ground (arith, h off))
  ]
  | inr (c, e) ↦ elim (Option-cases (get_elem? st' off)) [
    | inl e' ↦ absurd (ground (arith, h off))
    | inr (c', e') ↦
        let z : c.val ≡ c'.val = ground (arith, h off) in
        rw (e, e', z, read_cells-values st st' (off + 1) n h) refl
  ]
]

combine_state_idem : (s : CaptureState) → combine_state s s true ≡ s
unfolding combine_state cs_is_static
combine_state_idem cs_dead = refl
combine_state_idem cs_dynamic = refl
combine_state_idem cs_static = refl
combine_state_idem cs_stackrelative = refl
combine_state_idem cs_static2 = refl

state_known :
    (st : List Cell) (i : ℕ) (ms : MetaState)
    → state_at st i ≡ some ms
    → (c : Cell) × (get_elem? st i ≡ some c) × (c.state ≡ ms)
state_known st i ms h = elim (Option-cases (get_elem? st i)) [
  | inl e ↦ absurd (ground arith)
  | inr (c, e) ↦ (c, e, ground arith)
]

combine_cells_lem :
    (st : List Cell) (off n : ℕ) (ms : MetaState)
    → ((i : ℕ) → off ≤ i → i < off + n → state_at st i ≡ some ms)
    → combine_cells st off n ms.c_state ≡ some ms.c_state
unfolding combine_cells
combine_cells_lem st off zero ms h = refl
combine_cells_lem st off (suc n) ms h =
    let (c, e, z) = state_known st off ms (h off (omega arith) (omega arith)) in
    rw (e, z, combine_state_idem ms.c_state)
      (combine_cells_lem st (off + 1) n ms (λ i a b. h i (omega arith) (omega arith)))

access_fields :
    (es : EmuState) (off : ℕ)
    → ((access es off).stack ≡ es.stack)
      × ((access es off).stack_start ≡ es.stack_start)
      × ((access es off).regs ≡ es.regs)
      × ((access es off).stack_accessed ≤ es.stack_start + off)
unfolding access
access_fields es off = ground arith

bytes_agree :
    (t : ValType) (n : ℕ) → stack_value_bytes t ≡ some n → (state_bytes t ≡ some n) × (0 < n)
unfolding stack_value_bytes state_bytes
bytes_agree t n h = ground arith

load_lem :
    (es : EmuState) (t : ValType) (off : EmuValue) (ms : MetaState) (n x : ℕ) (c : Cell)
    → stack_value_bytes t ≡ some n
    → off.state.c_state ≡ cs_static
    → ltb off.val (length es.stack) ≡ true
    → ltb off.val (es.stack_accessed - es.stack_start) ≡ false
    → read_cells es.stack off.val n ≡ some x
    → get_elem? es.stack off.val ≡ some c
    → c.state ≡ ms
    → combine_cells es.stack (off.val + 1) (n - 1) ms.c_state ≡ some ms.c_state
    → get_stack_value es t off
      ≡ some (record { val = x; type = t; state = init_meta_state ms.c_state })
unfolding get_stack_value get_stack_state
load_lem es t off ms n x c ht hs long in_use loads e z rest =
    rw (long, ht, loads, hs, in_use, e, z, rest) refl

-- A value of 16, 32 or 64 bits is stored at a static offset at which all its bytes lie on the
-- stack, together with a capture state. Neither store fails. Loading the same type from there gives
-- the low bytes of the value and the capture state; a byte elsewhere keeps its value and its state,
-- and so do the registers.
pub get_stack_value-set_stack_value :
    (es : EmuState) (v off : EmuValue) (ms : MetaState) (n i : ℕ)
    → stack_value_bytes v.type ≡ some n
    → off.val + n ≤ length es.stack
    → off.state.c_state ≡ cs_static
    → (i < off.val) ⊎ (off.val + n ≤ i)
    → (es1 : EmuState) × (es2 : EmuState) × (set_stack_value es v off ≡ some es1)
      × (set_stack_state es1 off v.type ms ≡ some es2)
      × (get_stack_value es2 v.type off
          ≡ some (record {
            val = low_bytes n v.val;
            type = v.type;
            state = init_meta_state ms.c_state;
          }))
      × (get_elem? es2.stack i ≡ get_elem? es.stack i)
      × (es2.regs ≡ es.regs)
unfolding set_stack_value set_stack_state ms_is_static
get_stack_value-set_stack_value es v off ms n i ht hl hs hi =
    let o = off.val in
    let (st1, r1, s1) = write_cells_lem es.stack o n v.val hl in
    let es1 = access (record es { stack = st1 }) o in
    let f1 = access_fields (record es { stack = st1 }) o in
    let (st2, r2, s2) = set_states_lem st1 o n ms (omega (arith, s1.size)) in
    let es2 = access (record es1 { stack = st2 }) o in
    let f2 = access_fields (record es1 { stack = st2 }) o in
    let b = bytes_agree v.type n ht in
    let (c, e, z) = state_known st2 o ms (s2.inside o (omega arith) (omega (arith, b.1))) in
    let in_use : ltb o (es2.stack_accessed - es2.stack_start) ≡ false =
      ltb-false o (es2.stack_accessed - es2.stack_start) (λ k. omega (arith, f2.3, f2.1)) in
    let long : ltb o (length es2.stack) ≡ true =
      lt→ltb o (length es2.stack)
        (omega (arith, ap (length {A = Cell}) f2.0, s2.size, s1.size, b.1)) in
    let rest : combine_cells st2 (o + 1) (n - 1) ms.c_state ≡ some ms.c_state =
      combine_cells_lem st2 (o + 1) (n - 1) ms
        (λ j x y. s2.inside j (omega arith) (omega (arith, b.1))) in
    let loads : read_cells st2 o n ≡ some (low_bytes n v.val) =
      read_cells-values st2 st1 o n s2.values ∙ s1.loads in
    (
      es1,
      es2,
      rw (ht, r1) refl,
      ground (arith, hs, b.0, f1.0, r2),
      load_lem es2 v.type off ms n (low_bytes n v.val) c ht hs long in_use
          (ap (λ (l : List Cell). read_cells l o n) f2.0 ∙ loads)
          (ap (λ (l : List Cell). get_elem? l o) f2.0 ∙ e) z
          (ap (λ (l : List Cell). combine_cells l (o + 1) (n - 1) ms.c_state) f2.0 ∙ rest),
      ap (λ (l : List Cell). get_elem? l i) f2.0 ∙ s2.outside i hi ∙ s1.outside i hi,
      f2.2 ∙ f1.2,
    )

-- Stores on the stack change only its bytes and the part of it that has been accessed.
access_lem :
    (es : EmuState) (st : List Cell) (n : ℕ)
    → let es1 = access (record es { stack = st }) n in
      es1 ≡ record es { stack = es1.stack; stack_accessed = es1.stack_accessed }
unfolding access
access_lem es st n = elim (Bool-cases (ltb (es.stack_start + n) es.stack_accessed)) [
  | inl x ↦ rw x refl
  | inr x ↦ rw x refl
]

pub set_stack_value-rest :
    (es es1 : EmuState) (v off : EmuValue)
    → set_stack_value es v off ≡ some es1
    → es1 ≡ record es { stack = es1.stack; stack_accessed = es1.stack_accessed }
unfolding set_stack_value
set_stack_value-rest es es1 v off h = ground (arith, λ (st : List Cell). access_lem es st off.val)

pub set_stack_state-rest :
    (es es1 : EmuState) (off : EmuValue) (t : ValType) (ms : MetaState)
    → set_stack_state es off t ms ≡ some es1
    → es1 ≡ record es { stack = es1.stack; stack_accessed = es1.stack_accessed }
unfolding set_stack_state
set_stack_state-rest es es1 off t ms h =
    ground (arith, λ (st : List Cell). access_lem es st off.val)
