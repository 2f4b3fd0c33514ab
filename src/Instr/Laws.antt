-- ===== src/Instr/Laws.antt =====
-- Operands: what copying, building and overwriting them keeps.
use dbrew.Prelude.{◌≡◌, refl, ◌⊎◌, inl, inr, Bool, true, false, ◌&&◌, ◌||◌, some, arith, ltb}
use dbrew.Prelude.{◌==◌, if◌then◌else◌, ◌>>◌, assert, ◌is◌}
use dbrew.Instr.Kinds.{rt_none, rt_gp64, rt_ip, rt_enum}
use dbrew.Instr.Copy.{copy_ind, copy_operand}
use dbrew.Instr.Types.{Operand}
use dbrew.Instr.Operands.{op_is_imm, op_is_reg, op_is_ind, ind_is_equal, op_is_equal}
use dbrew.Instr.Registers.{reg_is_equal}

-- The shape of `copy_ind`: assertions around one test.
checked_cases {ℓ} :
    {A : Type ℓ} (b c d e : Bool) (x y o : A)
    → (assert b >> (if c then (assert d >> (assert e >> some x)) else some y)) ≡ some o
    → ((c ≡ true) × (some x ≡ some o)) ⊎ ((c ≡ false) × (some y ≡ some o))
checked_cases true true true true x y o p = inl (refl, p)
checked_cases true true true false x y o p = absurd (ground arith)
checked_cases true true false e x y o p = absurd (ground arith)
checked_cases true false d e x y o p = inr (refl, p)
checked_cases false c d e x y o p = absurd (ground arith)

copy_ind_fields :
    (dst src o : Operand)
    → copy_ind dst src ≡ some o
    → (o.type ≡ src.type)
      × (o.reg ≡ src.reg)
      × (o.val ≡ src.val)
      × (o.seg ≡ src.seg)
      × (o.scale ≡ src.scale)
      × ((src.scale ≡ 0) ⊎ (o.ireg ≡ src.ireg))
unfolding copy_ind
copy_ind_fields dst src o p =
    let t = src.reg.rt in
    let s = src.scale in
    let y : Operand = record src { ireg = dst.ireg } in
    elim (checked_cases (t is rt_none || t is rt_ip || t is rt_gp64) (ltb 0 s)
      (s == 1 || s == 2 || s == 4 || s == 8) (src.ireg.rt is rt_gp64) src y o p) [
        | inl (e, q) ↦ ground arith
        | inr (e, q) ↦ ground arith
      ]

copy_ind-ind_is_equal :
    (dst src o : Operand)
    → copy_ind dst src ≡ some o
    → reg_is_equal src.reg src.reg ≡ true
    → (src.scale ≡ 0) ⊎ (reg_is_equal src.ireg src.ireg ≡ true)
    → (o.type ≡ src.type) × (ind_is_equal o src ≡ true)
unfolding ind_is_equal
copy_ind-ind_is_equal dst src o p hr hi = let f = copy_ind_fields dst src o p in ground (arith, f)

kind_of_type :
    (o src : Operand)
    → o.type ≡ src.type
    → (op_is_imm o ≡ op_is_imm src) × (op_is_reg o ≡ op_is_reg src) × (op_is_ind o ≡ op_is_ind src)
unfolding op_is_imm op_is_reg op_is_ind
kind_of_type o src e = rw e (refl, refl, refl)

kinds_differ :
    (o : Operand)
    → ((op_is_imm o && op_is_reg o) ≡ false)
      × ((op_is_imm o && op_is_ind o) ≡ false)
      × ((op_is_reg o && op_is_ind o) ≡ false)
unfolding op_is_imm op_is_reg op_is_ind
kinds_differ o = ground arith

copy_kinds :
    (dst src o : Operand)
    → copy_operand dst src ≡ some o
    → ((op_is_imm src ≡ true) × (o.type ≡ src.type) × (o.val ≡ src.val))
      ⊎ ((op_is_reg src ≡ true) × (o.type ≡ src.type) × (o.reg ≡ src.reg))
      ⊎ ((op_is_ind src ≡ true) × (copy_ind dst src ≡ some o))
unfolding copy_operand
copy_kinds dst src o p = ground arith

-- A copied operand is the same operand, whatever stood at the destination, if its registers have
-- a type: `opIsEqual` finds no register without a type equal to itself.
pub copy_operand-op_is_equal :
    (dst src o : Operand)
    → copy_operand dst src ≡ some o
    → reg_is_equal src.reg src.reg ≡ true
    → (src.scale ≡ 0) ⊎ (reg_is_equal src.ireg src.ireg ≡ true)
    → op_is_equal o src ≡ some true
unfolding op_is_equal
copy_operand-op_is_equal dst src o p hr hi = elim (copy_kinds dst src o p) [
  | inl (k, t, v) ↦ ground (arith, kind_of_type o src t, kinds_differ o)
  | inr (inl (k, t, r)) ↦ ground (arith, kind_of_type o src t, kinds_differ o)
  | inr (inr (k, q)) ↦
      let e = copy_ind-ind_is_equal dst src o q hr hi in
      ground (arith, e.1, kind_of_type o src e.0, kinds_differ o)
]
