-- ===== src/Process/Fold.antt =====
-- Instructions on known registers are computed and leave no code.
use dbrew.Prelude.{ℕ, ◌+◌, ◌-◌, ◌%◌, ◌^◌, ◌<◌, ◌≡◌, refl, ap, ◌∙◌, ◌⊎◌, inl, inr, true, false}
use dbrew.Prelude.{some, arith, ltb, ◌is◌, is_iff}
use dbrew.Emulate.RegisterLaws.{IsRegWidth}
use dbrew.Emulate.Meta.{CaptureState, cs_dead, cs_dynamic, cs_static, cs_stackrelative}
use dbrew.Emulate.Meta.{cs_static2, init_meta_state, cs_is_static, ms_is_static}
use dbrew.Emulate.Meta.{EmuValue, combine_state, combine_state4_flags}
use dbrew.Emulate.FlagLaws.{sub_flags, set_flags_sub_lem}
use dbrew.Emulate.Operand.{get_op_value}
use dbrew.Emulate.State.{Cell, EmuState}
use dbrew.Emulate.Flags.{set_flags_state, sign_bit, put_flags, set_flags_sub}
use dbrew.Instr.Kinds.{ValType, vt_enum, OpType}
use dbrew.Instr.Mnemonics.{InstrType, it_sub, it_cmp}
use dbrew.Instr.Types.{Operand, Instr}
use dbrew.Instr.Operands.{op_val_type}
use dbrew.Capture.Captured.{capture_cmp}
use dbrew.Capture.Types.{RContext}
use dbrew.Process.Dispatch.{process_by_type, process_instr}
use dbrew.Process.Finish.{IsNotForced, finish_binary-known}
use dbrew.Process.Step.{with_es, val_bits}
use dbrew.Process.Known.{IsRegOf, reg_value, get_op_value-IsRegOf, put_reg}
use dbrew.Process.Arith.{extend_imm8, extend_imm, finish_binary, combined, process_sub}
use dbrew.Process.Arith.{process_cmp}

-- An instruction on two known registers of `w` bits.
pub record IsKnownPair (r : RContext) (i : Instr) (w : ℕ) (c1 c2 : Cell) : Type 0 where
  pub t : ValType
  pub plain : i.pt_len ≡ 0
  pub dst : IsRegOf r.world.es i.dst t w c1
  pub src : IsRegOf r.world.es i.src t w c2
  pub known1 : cs_is_static c1.state.c_state ≡ true
  pub known2 : cs_is_static c2.state.c_state ≡ true
  pub bits : (w ≡ 32) ⊎ (w ≡ 64)
  pub not_forced : IsNotForced r

combine_static :
    (s1 s2 : CaptureState)
    → cs_is_static s1 ≡ true
    → cs_is_static s2 ≡ true
    → (cs_is_static (combine_state s1 s2 false) ≡ true) × (combine_state4_flags s1 s2 ≡ cs_static)
unfolding cs_is_static combine_state combine_state4_flags
combine_static cs_static cs_static h1 h2 = (refl, refl)
combine_static cs_static cs_static2 h1 h2 = (refl, refl)
combine_static cs_static2 cs_static h1 h2 = (refl, refl)
combine_static cs_static2 cs_static2 h1 h2 = (refl, refl)
combine_static _ cs_dead h1 h2 = absurd (ground arith)
combine_static _ cs_dynamic h1 h2 = absurd (ground arith)
combine_static _ cs_stackrelative h1 h2 = absurd (ground arith)
combine_static cs_dead _ h1 h2 = absurd (ground arith)
combine_static cs_dynamic _ h1 h2 = absurd (ground arith)
combine_static cs_stackrelative _ h1 h2 = absurd (ground arith)

op_val_type-IsRegOf :
    (es : EmuState) (o : Operand) (t : ValType) (w : ℕ) (c : Cell)
    → IsRegOf es o t w c
    → op_val_type o ≡ some t
unfolding op_val_type
op_val_type-IsRegOf es o t w c h = elim (h.width) [
  | inl (a, b, _) ↦ rw (a, b) refl
  | inr (inl (a, b, _)) ↦ rw (a, b) refl
  | inr (inr (inl (a, b, _))) ↦ rw (a, b) refl
  | inr (inr (inr (a, b, _))) ↦ rw (a, b) refl
]

extend_imm-IsRegOf :
    (es : EmuState) (o : Operand) (t vt : ValType) (w : ℕ) (c : Cell) (v : EmuValue)
    → IsRegOf es o t w c
    → (extend_imm o vt v ≡ v) × (extend_imm8 o vt v ≡ v)
unfolding extend_imm extend_imm8
extend_imm-IsRegOf es o t vt w c v h = elim (h.width) [
  | inl (a, _, _) ↦ (rw (extend_imm, a) refl, rw a refl)
  | inr (inl (a, _, _)) ↦ (rw (extend_imm, a) refl, rw a refl)
  | inr (inr (inl (a, _, _))) ↦ (rw (extend_imm, a) refl, rw a refl)
  | inr (inr (inr (a, _, _))) ↦ (rw (extend_imm, a) refl, rw a refl)
]

-- The type of a register of 32 or 64 bits.
width_type :
    (ot : OpType) (t : ValType) (w : ℕ)
    → IsRegWidth ot t w
    → (w ≡ 32) ⊎ (w ≡ 64)
    → (val_bits t ≡ some w) × (sign_bit t ≡ some (w - 1))
unfolding val_bits sign_bit
width_type ot t w (inl (_, b, c)) h = absurd (omega (arith, c, h))
width_type ot t w (inr (inl (_, b, c))) h = absurd (omega (arith, c, h))
width_type ot t w (inr (inr (inl (_, b, c)))) h = rw (b, c) (refl, refl)
width_type ot t w (inr (inr (inr (_, b, c)))) h = rw (b, c) (refl, refl)

value_bound : (w v : ℕ) → (w ≡ 32) ⊎ (w ≡ 64) → v % 2 ^ w < 2 ^ (w - 1 + 1)
value_bound w v (inl e) = rw e (omega arith)
value_bound w v (inr e) = rw e (omega arith)

narrow_diff :
    (w a b : ℕ)
    → (w ≡ 32) ⊎ (w ≡ 64)
    → (a % 2 ^ w + 2 ^ 64 - b % 2 ^ w) % 2 ^ w % 2 ^ w ≡ (a % 2 ^ w + 2 ^ w - b % 2 ^ w) % 2 ^ w
narrow_diff w a b (inl e) = rw e (omega arith)
narrow_diff w a b (inr e) = rw e (omega arith)

pub process_instr-plain :
    (r : RContext) (i : Instr) (it : InstrType)
    → i.pt_len ≡ 0
    → i.type ≡ it
    → process_instr r i ≡ process_by_type r i it
unfolding process_instr
process_instr-plain r i it p e =
    let z : ltb 0 i.pt_len ≡ false = rw p refl in rw (process_instr, z) (ap (process_by_type r i) e)

module _ (r : RContext) (i : Instr) (v1 v2 : EmuValue) (vt : ValType) (cs : CaptureState)
    (es : EmuState) (a : get_op_value r.world i.dst ≡ some v1)
    (b : get_op_value r.world i.src ≡ some v2) (t : op_val_type i.dst ≡ some vt)
    (f : set_flags_sub r.world.es v1 v2 ≡ some (cs, es)) where
  process_sub_step :
      (w : ℕ)
      → extend_imm i.src vt v2 ≡ v2
      → (v1.type is v2.type) ≡ true
      → val_bits vt ≡ some w
      → process_sub r i
        ≡ finish_binary (with_es r es) i (combined v1 v2 vt ((v1.val + 2 ^ 64 - v2.val) % 2 ^ w))
  unfolding process_sub
  process_sub_step w x same vb = ground (arith, a, b, t, x, f, same, vb)

  process_cmp_step :
      extend_imm8 i.src vt v2 ≡ v2 → process_cmp r i ≡ capture_cmp (with_es r es) i cs
  unfolding process_cmp
  process_cmp_step x = rw (process_cmp, a, b, t, x, f) refl

module _ (r : RContext) (i : Instr) (w : ℕ) (c1 c2 : Cell) (h : IsKnownPair r i w c1 c2) where
  -- The state with the flags of the subtraction.
  abbrev pub compared : EmuState
  compared = sub_flags r.world.es cs_static (w - 1) (c1.val % 2 ^ w) (c2.val % 2 ^ w)

  pub flags_lem :
      set_flags_sub r.world.es (reg_value c1 h.t w) (reg_value c2 h.t w)
      ≡ some (cs_static, compared)
  flags_lem =
      let sb = (width_type i.dst.type h.t w h.dst.width h.bits).1 in
      let st = (combine_static c1.state.c_state c2.state.c_state h.known1 h.known2).1 in
      let e =
        set_flags_sub_lem r.world.es (reg_value c1 h.t w) (reg_value c2 h.t w) (w - 1) refl sb
          (value_bound w c1.val h.bits) (value_bound w c2.val h.bits) in
      rw st at e

  dst_compared : IsRegOf compared i.dst h.t w c1
  unfolding put_flags set_flags_state
  dst_compared = record {
    width = h.dst.width;
    type_ok = h.dst.type_ok;
    gp = h.dst.gp;
    there = h.dst.there;
  }

  not_forced : IsNotForced (with_es r compared)
  unfolding put_flags set_flags_state
  not_forced = h.not_forced

  -- On two known registers of 32 or 64 bits, at a call depth where values may stay known, SUB sets
  -- the first to the difference and the flags to those that x86 gives the subtraction. All of them
  -- are known, and nothing is captured.
  pub process_sub-known :
      i.type ≡ it_sub
      → process_instr r i
        ≡ some (
            with_es r (
              put_reg compared i.dst.reg.ri (record {
                val = (c1.val % 2 ^ w + 2 ^ w - c2.val % 2 ^ w) % 2 ^ w;
                state = init_meta_state (combine_state c1.state.c_state c2.state.c_state false);
              })))
  unfolding process_by_type cs_is_static ms_is_static
  process_sub-known e =
      let a = get_op_value-IsRegOf r.world i.dst h.t w c1 h.dst in
      let b = get_op_value-IsRegOf r.world i.src h.t w c2 h.src in
      let t = op_val_type-IsRegOf r.world.es i.dst h.t w c1 h.dst in
      let x = (extend_imm-IsRegOf r.world.es i.src h.t h.t w c2 (reg_value c2 h.t w) h.src).0 in
      let f = flags_lem in
      let same = (is_iff h.t h.t).1 refl in
      let vb = (width_type i.dst.type h.t w h.dst.width h.bits).0 in
      let st = (combine_static c1.state.c_state c2.state.c_state h.known1 h.known2).0 in
      let v =
        combined (reg_value c1 h.t w) (reg_value c2 h.t w) h.t
          ((c1.val % 2 ^ w + 2 ^ 64 - c2.val % 2 ^ w) % 2 ^ w) in
      let k = finish_binary-known (with_es r compared) i v w c1 not_forced dst_compared st in
      let out : ℕ → RContext = λ n. with_es r (
        put_reg compared i.dst.reg.ri (record {
          val = n;
          state = init_meta_state (combine_state c1.state.c_state c2.state.c_state false);
        })) in
      let p : process_sub r i ≡ some (out (v.val % 2 ^ w)) =
        process_sub_step r i (reg_value c1 h.t w) (reg_value c2 h.t w) h.t cs_static compared a b t
          f w x same vb
        ∙ k in
      process_instr-plain r i it_sub h.plain e
      ∙ p
      ∙ ap (λ n. some (out n)) (narrow_diff w c1.val c2.val h.bits)

  -- CMP sets the flags to those of the subtraction, and nothing is captured.
  pub process_cmp-known : i.type ≡ it_cmp → process_instr r i ≡ some (with_es r compared)
  unfolding process_by_type capture_cmp cs_is_static
  process_cmp-known e =
      let a = get_op_value-IsRegOf r.world i.dst h.t w c1 h.dst in
      let b = get_op_value-IsRegOf r.world i.src h.t w c2 h.src in
      let t = op_val_type-IsRegOf r.world.es i.dst h.t w c1 h.dst in
      let x = (extend_imm-IsRegOf r.world.es i.src h.t h.t w c2 (reg_value c2 h.t w) h.src).1 in
      process_instr-plain r i it_cmp h.plain e
      ∙ process_cmp_step r i (reg_value c1 h.t w) (reg_value c2 h.t w) h.t cs_static compared a b t
          flags_lem x
