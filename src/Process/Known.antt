-- ===== src/Process/Known.antt =====
-- Operands in registers whose values are known.
use dbrew.Prelude.{ℕ, zero, suc, ◌%◌, ◌^◌, ◌≡◌, refl, ap, ◌∙◌, inl, inr, true, some, List, []}
use dbrew.Prelude.{◌∷◌, get_elem?, set, get_elem?-set_self, get_elem?-bound, ◌is◌}
use dbrew.Emulate.RegisterLaws.{IsRegWidth, set_op_value_reg, get_op_value_reg}
use dbrew.Emulate.Meta.{MetaState, EmuValue}
use dbrew.Emulate.Operand.{World, get_op_reg, get_op_value, set_reg_state, set_reg_val}
use dbrew.Emulate.Operand.{set_op_state, set_op_reg, set_op_value}
use dbrew.Emulate.State.{Cell, EmuState}
use dbrew.Instr.Kinds.{ValType, vt_enum}
use dbrew.Instr.Types.{Operand}
use dbrew.Instr.Registers.{reg_val_type, reg_is_gp}
use dbrew.Capture.Types.{RContext}
use dbrew.Process.Step.{with_es, set_result}

-- A general register operand of `w` bits that holds `c`.
pub record IsRegOf (es : EmuState) (o : Operand) (t : ValType) (w : ℕ) (c : Cell) : Type 0 where
  pub width : IsRegWidth o.type t w
  pub type_ok : (reg_val_type o.reg is t) ≡ true
  pub gp : reg_is_gp o.reg ≡ some true
  pub there : get_elem? es.regs o.reg.ri ≡ some c

-- The value of such an operand.
abbrev pub reg_value : Cell → ValType → ℕ → EmuValue
reg_value c t w = record { val = c.val % 2 ^ w; type = t; state = c.state }

pub get_op_value-IsRegOf :
    (world : World) (o : Operand) (t : ValType) (w : ℕ) (c : Cell)
    → IsRegOf world.es o t w c
    → get_op_value world o ≡ some (reg_value c t w)
unfolding get_op_reg
get_op_value-IsRegOf world o t w c h =
    let e = h.type_ok in
    let f = h.there in get_op_value_reg world o t w h.width ∙ rw (get_op_reg, e, f) refl

-- The state with a new cell for a register.
abbrev pub put_reg : EmuState → ℕ → Cell → EmuState
put_reg es ri c = record es { regs = set es.regs ri c }

set-set : (xs : List Cell) (i : ℕ) (a b : Cell) → set (set xs i a) i b ≡ set xs i b
set-set [] i a b = refl
set-set (x ∷ xs) zero a b = refl
set-set (x ∷ xs) (suc i) a b = ap (λ l. x ∷ l) (set-set xs i a b)

set_op_state_reg :
    (ms : MetaState) (es : EmuState) (o : Operand) (t : ValType) (w : ℕ)
    → IsRegWidth o.type t w
    → set_op_state ms es o ≡ set_reg_state es o.reg.ri ms
unfolding set_op_state
set_op_state_reg ms es o t w (inl (a, b, c)) = rw a refl
set_op_state_reg ms es o t w (inr (inl (a, b, c))) = rw a refl
set_op_state_reg ms es o t w (inr (inr (inl (a, b, c)))) = rw a refl
set_op_state_reg ms es o t w (inr (inr (inr (a, b, c)))) = rw a refl

pub set_result-IsRegOf :
    (r : RContext) (v : EmuValue) (o : Operand) (w : ℕ) (c : Cell)
    → IsRegOf r.world.es o v.type w c
    → set_result r v o
      ≡ some (
          with_es r (put_reg r.world.es o.reg.ri (record { val = v.val % 2 ^ w; state = v.state })))
unfolding set_result set_op_reg set_reg_val set_reg_state
set_result-IsRegOf r v o w c h =
    let es = r.world.es in
    let e = h.type_ok in
    let f = h.there in
    let c1 : Cell = record c { val = v.val % 2 ^ w } in
    let es1 = put_reg es o.reg.ri c1 in
    let a : set_op_value v r.world o ≡ some (record (r.world) { es = es1 }) =
      set_op_value_reg v r.world o v.type w h.width refl ∙ rw (set_op_reg, e, f) refl in
    let self = get_elem?-set_self es.regs o.reg.ri c1 (get_elem?-bound es.regs o.reg.ri c f) in
    let c2 : Cell = record { val = v.val % 2 ^ w; state = v.state } in
    let s = set-set es.regs o.reg.ri c1 c2 in
    let b : set_op_state v.state es1 o ≡ some (put_reg es o.reg.ri c2) =
      set_op_state_reg v.state es1 o v.type w h.width ∙ rw (set_reg_state, self, s) refl in
    rw (set_result, a, b) refl
