-- ===== src/Emulate/RegisterLaws.antt =====
-- Writing a register operand and reading it.
use dbrew.Prelude.{ℕ, ◌%◌, ◌^◌, ◌<◌, ◌≡◌, refl, sym, ◌∙◌, ◌≢◌, ◌⊎◌, inl, inr, true, some, arith}
use dbrew.Prelude.{length, get_elem?, set, get_elem?-set_self, get_elem?-set_ne, ◌is◌}
use dbrew.Emulate.Meta.{EmuValue}
use dbrew.Emulate.Operand.{World, get_op_reg, get_op_value, set_reg_val, set_op_reg}
use dbrew.Emulate.Operand.{set_op_value}
use dbrew.Emulate.State.{Cell}
use dbrew.Instr.Kinds.{ValType, vt_8, vt_16, vt_32, vt_64, vt_enum, OpType, ot_reg8}
use dbrew.Instr.Kinds.{ot_reg16, ot_reg32, ot_reg64}
use dbrew.Instr.Types.{Operand}
use dbrew.Instr.Operands.{op_val_type}
use dbrew.Instr.Registers.{reg_val_type}

-- The register operands with their types and widths in bits.
abbrev pub IsRegWidth : OpType → ValType → ℕ → Type 0
IsRegWidth ot t width =
    ((ot ≡ ot_reg8) × (t ≡ vt_8) × (width ≡ 8))
    ⊎ ((ot ≡ ot_reg16) × (t ≡ vt_16) × (width ≡ 16))
    ⊎ ((ot ≡ ot_reg32) × (t ≡ vt_32) × (width ≡ 32))
    ⊎ ((ot ≡ ot_reg64) × (t ≡ vt_64) × (width ≡ 64))

pub set_op_value_reg :
    (v : EmuValue) (w : World) (o : Operand) (t : ValType) (width : ℕ)
    → IsRegWidth o.type t width
    → v.type ≡ t
    → set_op_value v w o ≡ set_op_reg w v o t width
unfolding set_op_value op_val_type
set_op_value_reg v w o t width (inl (a, b, c)) e = rw (a, b, c, e ∙ b) refl
set_op_value_reg v w o t width (inr (inl (a, b, c))) e = rw (a, b, c, e ∙ b) refl
set_op_value_reg v w o t width (inr (inr (inl (a, b, c)))) e = rw (a, b, c, e ∙ b) refl
set_op_value_reg v w o t width (inr (inr (inr (a, b, c)))) e = rw (a, b, c, e ∙ b) refl

pub get_op_value_reg :
    (w : World) (o : Operand) (t : ValType) (width : ℕ)
    → IsRegWidth o.type t width
    → get_op_value w o ≡ get_op_reg w.es o t width
unfolding get_op_value
get_op_value_reg w o t width (inl (a, b, c)) = rw (a, b, c) refl
get_op_value_reg w o t width (inr (inl (a, b, c))) = rw (a, b, c) refl
get_op_value_reg w o t width (inr (inr (inl (a, b, c)))) = rw (a, b, c) refl
get_op_value_reg w o t width (inr (inr (inr (a, b, c)))) = rw (a, b, c) refl

width_mod :
    (ot : OpType) (t : ValType) (width v : ℕ)
    → IsRegWidth ot t width
    → v % 2 ^ width % 2 ^ width ≡ v % 2 ^ width
width_mod ot t width v (inl (a, b, c)) = rw c (omega arith)
width_mod ot t width v (inr (inl (a, b, c))) = rw c (omega arith)
width_mod ot t width v (inr (inr (inl (a, b, c)))) = rw c (omega arith)
width_mod ot t width v (inr (inr (inr (a, b, c)))) = rw c (omega arith)

-- A value is written to a register operand of its type, 8, 16, 32 or 64 bits wide. The write
-- succeeds. Reading the operand gives the low bits of the value with the capture state that the
-- register had; the whole register holds these bits; the other registers and the memory stay.
pub get_op_value-set_op_value :
    (v : EmuValue) (w : World) (o : Operand) (width i : ℕ) (c : Cell)
    → IsRegWidth o.type v.type width
    → (reg_val_type o.reg is v.type) ≡ true
    → get_elem? w.es.regs o.reg.ri ≡ some c
    → o.reg.ri < length w.es.regs
    → i ≢ o.reg.ri
    → (w' : World) × (set_op_value v w o ≡ some w')
      × (get_op_value w' o
          ≡ some (record { val = v.val % 2 ^ width; type = v.type; state = c.state }))
      × (get_elem? w'.es.regs o.reg.ri ≡ some (record c { val = v.val % 2 ^ width }))
      × (get_elem? w'.es.regs i ≡ get_elem? w.es.regs i)
      × (w'.mem ≡ w.mem)
unfolding set_op_reg set_reg_val get_op_reg
get_op_value-set_op_value v w o width i c h t e l n =
    let c' : Cell = record c { val = v.val % 2 ^ width } in
    let self = get_elem?-set_self w.es.regs o.reg.ri c' l in
    (
      record w { es = record (w.es) { regs = set w.es.regs o.reg.ri c' } },
      set_op_value_reg v w o v.type width h refl ∙ rw (t, e) refl,
      get_op_value_reg _ o v.type width h
          ∙ rw (t, self, width_mod o.type v.type width v.val h) refl,
      self,
      get_elem?-set_ne w.es.regs o.reg.ri i c' (λ z. n (sym z)),
      refl,
    )
